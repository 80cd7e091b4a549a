-- ===== src/ThreadPool.antt =====
-- The thread pool of src/threadpool.cc: the queue of jobs, the workers and the barriers. Every
-- section under the pool's mutex is one step. Memory is always there; what a job computes, and
-- the places of the nodes in memory, are left out. The counters of type `int` are unbounded.
pub mod Count
pub mod Steps
pub mod Made
pub mod Changes
pub mod Kept
pub mod Drain
use pinba_engine.Common.{
  Bool, List, Option, [], false, if◌then◌else◌, leb, length, ltb, nat_eq, none, not, replicate,
  some, string_eq, true, ℕ, ◌++◌, ◌+◌, ◌-◌, ◌/◌, ◌==◌, ◌||◌, ◌∷◌,
}

-- `queue_node_t`, by the barrier of its job: a barrier is the number of its address.
pub record Job : Type 0 where
  pub func_to_dispatch : ℕ
  pub func_arg : ℕ
  pub barrier : Option ℕ

-- `queue_head_t`: `jobs` is the list from `tail` to `head`, and `free_nodes` the length of the list
-- from `freeHead` to `freeTail`.
pub record JobQueue : Type 0 where
  pub jobs : List Job
  pub free_nodes : ℕ
  pub capacity : ℕ
  pub max_capacity : ℕ
  pub posted : ℕ

-- A thread in `th_do_work`.
pub data Worker : Type 0 where
  waiting gone : Worker
  running : Job → Worker

-- `thread_pool_barrier_t`, and where its owner is: `in_batch` from `th_pool_barrier_start` until
-- `th_pool_barrier_wait` has returned.
pub record Barrier : Type 0 where
  pub posted_count : ℕ
  pub done_count : ℕ
  pub in_batch : Bool

pub record ThreadPool : Type 0 where
  pub job_queue : JobQueue
  pub workers : List Worker
  pub shutdown : Bool
  pub live : ℕ
  pub barriers : ℕ → Barrier

-- The number of nodes of 56 bytes in `MAX_QUEUE_MEMORY_SIZE`.
abbrev pub max_cap : ℕ
max_cap = 65536 / 56

-- One node more than the capacity is made: the one that ends the free list.
unfoldable pub queue_create : ℕ → Option JobQueue
queue_create initial_cap =
    let cap = if ltb max_cap initial_cap then max_cap else initial_cap in
    if cap == 0
    then none
    else some (record {
      jobs = [];
      free_nodes = cap + 1;
      capacity = cap;
      max_capacity = max_cap;
      posted = 0;
    })

-- The node for a job: a new one when none is free.
unfoldable pub queue_node : JobQueue → JobQueue
queue_node q =
    if q.free_nodes == 0 then record q { free_nodes = 1; capacity = q.capacity + 1 } else q

-- Jobs are put at the tail.
unfoldable pub queue_post_job : Job → JobQueue → JobQueue
unfolding queue_node
queue_post_job job q =
    let q' = queue_node q in
    record q' { jobs = job ∷ q'.jobs; free_nodes = q'.free_nodes - 1; posted = q'.posted + 1 }

-- And taken from the tail.
unfoldable pub queue_fetch_job : JobQueue → Option (Job × JobQueue)
queue_fetch_job q = elim q.jobs [
  | [] ↦ none
  | job ∷ rest ↦ some (job, record q { jobs = rest; free_nodes = q.free_nodes + 1 })
]

unfoldable pub queue_can_accept_order : JobQueue → Bool
queue_can_accept_order q = not (q.free_nodes == 0) || leb q.capacity q.max_capacity

unfoldable pub queue_is_job_available : JobQueue → Bool
queue_is_job_available q = not (length q.jobs == 0)

unfoldable pub barrier_posted : Option ℕ → (ℕ → Barrier) → ℕ → Barrier
barrier_posted none barriers b = barriers b
barrier_posted (some a) barriers b =
    if a == b
    then record (barriers b) { posted_count = (barriers b).posted_count + 1 }
    else barriers b

unfoldable pub th_pool_barrier_signal : Option ℕ → (ℕ → Barrier) → ℕ → Barrier
th_pool_barrier_signal none barriers b = barriers b
th_pool_barrier_signal (some a) barriers b =
    if a == b then record (barriers b) { done_count = (barriers b).done_count + 1 } else barriers b

-- Both counters go back to 0, whatever they were.
unfoldable pub th_pool_barrier_start : ℕ → (ℕ → Barrier) → ℕ → Barrier
th_pool_barrier_start a barriers b =
    if a == b then record { posted_count = 0; done_count = 0; in_batch = true } else barriers b

-- The return of `th_pool_barrier_wait` leaves the counters.
unfoldable pub th_pool_barrier_wait : ℕ → (ℕ → Barrier) → ℕ → Barrier
th_pool_barrier_wait a barriers b =
    if a == b then record (barriers b) { in_batch = false } else barriers b

-- What `th_pool_barrier_wait` waits for.
unfoldable pub barrier_passes : Barrier → Bool
barrier_passes b = leb b.posted_count b.done_count

abbrev pub th_pool_barrier_init : Barrier
th_pool_barrier_init = record { posted_count = 0; done_count = 0; in_batch = false }

unfoldable pub th_pool_create : ℕ → Option ThreadPool
unfolding queue_create
th_pool_create num_threads =
    if num_threads == 0 || ltb 200 num_threads then none else elim (queue_create num_threads) [
      | none ↦ none
      | some q ↦ some (record {
        job_queue = q;
        workers = replicate num_threads waiting;
        shutdown = false;
        live = num_threads;
        barriers = λ b. th_pool_barrier_init;
      })
    ]

-- `th_pool_dispatch_with_cleanup`, once the queue can accept the job.
unfoldable pub dispatch : Job → ThreadPool → ThreadPool
unfolding queue_post_job barrier_posted
dispatch job pool = record pool {
  job_queue = queue_post_job job pool.job_queue;
  barriers = barrier_posted job.barrier pool.barriers;
}

-- The parts of `th_do_work` under the mutex, of the worker between `before` and `after`.
abbrev pub with_worker : List Worker → Worker → List Worker → ThreadPool → ThreadPool
with_worker before w after pool = record pool { workers = before ++ w ∷ after }

unfoldable pub take_job : List Worker → List Worker → Job → JobQueue → ThreadPool → ThreadPool
take_job before after job q pool = record (with_worker before (running job) after pool) {
  job_queue = q;
}

unfoldable pub end_job : List Worker → List Worker → Job → ThreadPool → ThreadPool
unfolding th_pool_barrier_signal
end_job before after job pool = record (with_worker before waiting after pool) {
  barriers = th_pool_barrier_signal job.barrier pool.barriers;
}

unfoldable pub leave : List Worker → List Worker → ThreadPool → ThreadPool
leave before after pool = record (with_worker before gone after pool) { live = pool.live - 1 }

unfoldable pub start_batch : ℕ → ThreadPool → ThreadPool
unfolding th_pool_barrier_start
start_batch b pool = record pool { barriers = th_pool_barrier_start b pool.barriers }

unfoldable pub end_batch : ℕ → ThreadPool → ThreadPool
unfolding th_pool_barrier_wait
end_batch b pool = record pool { barriers = th_pool_barrier_wait b pool.barriers }
