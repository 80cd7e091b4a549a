-- ===== src/ThreadPool/Made.antt =====
-- The pool that `th_pool_create` of src/threadpool.cc makes.
use pinba_engine.Common.{
  Bool-cases, Option, [], arith, false, inl, inr, ltb, nat_eq, none, refl, replicate, some,
  string_eq, subst, sym, ℕ, ◌+◌, ◌==◌, ◌||◌, ◌≡◌, ◌≤◌,
}
use pinba_engine.ThreadPool.{
  ThreadPool, max_cap, queue_create, th_pool_barrier_init, th_pool_create, waiting,
}
use pinba_engine.ThreadPool.Count.{count-replicate, held-replicate, queued}
use pinba_engine.ThreadPool.Steps.{IsPool}

abbrev IfMade : Option ThreadPool → Type 0
IfMade none = Unit
IfMade (some pool) = IsPool pool

-- The pool that is made of a small number of threads.
abbrev pub made : ℕ → ThreadPool
made n = record {
  job_queue = record {
    jobs = [];
    free_nodes = n + 1;
    capacity = n;
    max_capacity = max_cap;
    posted = 0;
  };
  workers = replicate n waiting;
  shutdown = false;
  live = n;
  barriers = λ b. th_pool_barrier_init;
}

made-IsPool : (n : ℕ) → n ≤ 200 → IsPool (made n)
unfolding queued
made-IsPool n h = record {
  nodes_kept = omega arith;
  capacity_bound = omega arith;
  max_is = refl;
  open_jobs = λ b. omega (arith, held-replicate b n);
  live_is = sym (count-replicate n);
  rested = λ b h. omega (arith, held-replicate b n);
}

pub queue_create-small :
    (n : ℕ) → (n == 0) ≡ false → n ≤ 200 → queue_create n ≡ some (made n).job_queue
unfolding queue_create
queue_create-small n some_threads h =
    let small : ltb max_cap n ≡ false = ground arith in rw (small, some_threads) refl

th_pool_create-IfMade : (n : ℕ) → IfMade (th_pool_create n)
unfolding th_pool_create
th_pool_create-IfMade n = elim (Bool-cases (n == 0 || ltb 200 n)) [
  | inl bad ↦ rw bad tt
  | inr good ↦
      rw (good, queue_create-small n (ground arith) (ground arith)) (made-IsPool n (ground arith))
]

pub th_pool_create-IsPool : (n : ℕ) (pool : ThreadPool) → th_pool_create n ≡ some pool → IsPool pool
th_pool_create-IsPool n pool e = subst IfMade e (th_pool_create-IfMade n)
