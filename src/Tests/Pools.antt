-- ===== src/Tests/Pools.antt =====
-- Pools of numbers, and a ring of requests.
use pinba_engine.Common.{
  [], arith, if◌then◌else◌, length, min, nat_eq, pos, refl, string_eq, true, ℕ, ◌%◌, ◌<◌, ◌==◌, ◌^◌,
  ◌∷◌, ◌≡◌, ◌≤◌,
}
use pinba_engine.Time.{Timeval, null_timeval, timercmp}
use pinba_engine.Floats.{whole_numbers}
use pinba_engine.Record.{StatsRecord}
use pinba_engine.Pool.{
  IsPool, Pool, Staging, contents, grow, init, next_id, num_records, per_thread_prefix, push,
  success,
}
use pinba_engine.Pool.Grow.{grow_keeps}
use pinba_engine.Pool.Push.{
  CanGrow, IsStack, PushResult, grow_succeeds, push-PushResult, push_succeeds,
}
use pinba_engine.Pool.Lifetime.{Made, init-Made}
use pinba_engine.Pool.Expire.{request_pool_delete_old}
use pinba_engine.Pool.Expire.Rings.{IsRing}
use pinba_engine.Pool.Expire.Window.{
  drop_while, is_old, request_pool_delete_old-Purged, sum_of, take_while,
}

-- A ring whose newest item stands before its oldest.
abbrev wrapped : Pool ℕ
wrapped = record {
  size = 4;
  limit_size = 6;
  grow_size = 8;
  element_size = 8;
  in_index = 1;
  out_index = 3;
  name = per_thread_prefix;
  items = 12 ∷ 0 ∷ 0 ∷ 11 ∷ [];
}

wrapped-IsPool : IsPool wrapped
wrapped-IsPool = record {
  items_fit = refl;
  in_fits = omega arith;
  out_fits = omega arith;
  size_fits = omega arith;
}

abbrev gauges : Staging
gauges = record { staging_slots = 4; staging_bytes = 32 }

grow_keeps_example :
    let p' = (grow 99 0 true wrapped 8 gauges).1 in
    (contents p' ≡ contents wrapped)
    × (num_records p' ≡ num_records wrapped)
    × IsPool p'
    × (0 < 6 → p'.size ≤ 6)
grow_keeps_example =
    grow_keeps 99 0 true wrapped 8 gauges wrapped-IsPool (omega arith) (λ h. omega arith)

wrapped-CanGrow : CanGrow wrapped 0
wrapped-CanGrow = record { wanted = omega arith; no_wrap = omega arith; room = λ h. omega arith }

grow_succeeds_example :
    let r = grow 99 0 true wrapped 0 gauges in
    (r.0 ≡ success) × (4 < r.1.size) × (r.1.size ≡ (if 6 == 0 then 12 else min 12 6))
grow_succeeds_example = grow_succeeds 99 0 wrapped 0 gauges wrapped-IsPool wrapped-CanGrow

-- A full stack.
abbrev stack : Pool ℕ
stack = record {
  size = 2;
  limit_size = 0;
  grow_size = 2;
  element_size = 8;
  in_index = 2;
  out_index = 0;
  name = [];
  items = 5 ∷ 6 ∷ [];
}

stack-IsStack : IsStack stack
stack-IsStack = record {
  is_pool = record {
    items_fit = refl;
    in_fits = omega arith;
    out_fits = omega arith;
    size_fits = omega arith;
  };
  at_front = refl;
}

stack-CanGrow : CanGrow stack 3
stack-CanGrow = record { wanted = omega arith; no_wrap = omega arith; room = λ h. omega arith }

push-PushResult_example : PushResult stack 7 gauges (push 99 0 true stack 3 7 gauges)
push-PushResult_example = push-PushResult 99 0 true stack 3 7 gauges stack-IsStack (omega arith)

push_succeeds_example : (push 99 0 true stack 3 7 gauges).0 ≡ success
push_succeeds_example =
    push_succeeds 99 0 true stack 3 7 gauges stack-IsStack (λ _. (refl, stack-CanGrow))

abbrev at_time : ℕ → StatsRecord whole_numbers
at_time n = record {
  script_name = [];
  server_name = [];
  hostname = [];
  schema = [];
  req_time = null_timeval;
  ru_utime = null_timeval;
  ru_stime = null_timeval;
  doc_size = pos 0;
  mem_peak_usage = pos 0;
  memory_footprint = pos 0;
  tags = (1, 2) ∷ [];
  req_count = 1;
  status = 0;
  time = record { tv_sec = pos n; tv_usec = pos 0 };
  timers_start = 0;
  counter = n;
  timers_cnt = 3;
  active = true;
  dictionary_words = [];
}

abbrev requests : Pool (StatsRecord whole_numbers)
requests = record {
  size = 4;
  limit_size = 0;
  grow_size = 4;
  element_size = 1;
  in_index = 1;
  out_index = 2;
  name = [];
  items = at_time 30 ∷ at_time 0 ∷ at_time 10 ∷ at_time 20 ∷ [];
}

requests-IsRing : IsRing requests
requests-IsRing = record {
  is_pool = record {
    items_fit = refl;
    in_fits = omega arith;
    out_fits = omega arith;
    size_fits = omega arith;
  };
  in_below = omega arith;
  out_below = omega arith;
}

abbrev from : Timeval
from = record { tv_sec = pos 25; tv_usec = pos 0 }

request_pool_delete_old-Purged_example :
    let e = request_pool_delete_old from requests in
    IsRing e.pool
    × (contents e.pool ≡ drop_while (is_old from) (contents requests))
    × (e.deleted_timer_cnt % 2 ^ 64
        ≡ sum_of (λ r. r.timers_cnt) (take_while (is_old from) (contents requests)) % 2 ^ 64)
    × (e.rtags_cnt % 2 ^ 64
        ≡ sum_of (λ r. length r.tags) (take_while (is_old from) (contents requests)) % 2 ^ 64)
request_pool_delete_old-Purged_example =
    request_pool_delete_old-Purged from requests requests-IsRing

-- The two records of before second 25 are gone, with their six timers.
two_expired :
    let e = request_pool_delete_old from requests in
    (e.pool.out_index ≡ 0) × (e.deleted_timer_cnt ≡ 6) × (e.rtags_cnt ≡ 2)
unfolding request_pool_delete_old timercmp next_id
two_expired = (refl, refl, refl)

init-Made_example : Made {A = ℕ} gauges (init 99 0 true 4 8 0 0 per_thread_prefix gauges)
init-Made_example =
    init-Made 99 0 true 4 8 0 0 per_thread_prefix gauges (omega arith) (omega arith) (omega arith)
