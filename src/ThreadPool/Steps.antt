-- ===== src/ThreadPool/Steps.antt =====
-- The steps of the pool of src/threadpool.cc in any order, the states that they reach, and the
-- invariant.
use pinba_engine.Common.{
  Bool, List, Option, false, length, nat_eq, none, some, string_eq, true, ℕ, ◌++◌, ◌+◌, ◌∷◌, ◌≡◌,
  ◌≤◌,
}
use pinba_engine.ThreadPool.{
  Barrier, Job, JobQueue, ThreadPool, Worker, barrier_passes, dispatch, end_batch, end_job, leave,
  max_cap, queue_can_accept_order, queue_fetch_job, queue_is_job_available, running, start_batch,
  take_job, th_pool_create, waiting,
}
use pinba_engine.ThreadPool.Count.{count, held, is_live, queued}

-- Jobs are posted for a barrier between its start and its wait, or for none.
abbrev pub may_post : Option ℕ → (ℕ → Barrier) → Bool
may_post none barriers = true
may_post (some b) barriers = (barriers b).in_batch

-- A step of a worker, of a thread that posts jobs, or of a shutdown. The threads that own barriers,
-- in src/main.cc and src/pool.cc, call `th_pool_barrier_start`, post, and call
-- `th_pool_barrier_wait`, over and over.
pub data Step (pool : ThreadPool) : ThreadPool → Type 0 where
  dispatched :
      (job : Job)
      → may_post job.barrier pool.barriers ≡ true
      → queue_can_accept_order pool.job_queue ≡ true
      → Step pool (dispatch job pool)
  taken :
      (before after : List Worker) (job : Job) (q : JobQueue)
      → pool.workers ≡ before ++ waiting ∷ after
      → queue_fetch_job pool.job_queue ≡ some (job, q)
      → Step pool (take_job before after job q pool)
  ended :
      (before after : List Worker) (job : Job)
      → pool.workers ≡ before ++ running job ∷ after
      → Step pool (end_job before after job pool)
  left :
      (before after : List Worker)
      → pool.workers ≡ before ++ waiting ∷ after
      → pool.shutdown ≡ true
      → queue_is_job_available pool.job_queue ≡ false
      → Step pool (leave before after pool)
  started : (b : ℕ) → (pool.barriers b).in_batch ≡ false → Step pool (start_batch b pool)
  waited :
      (b : ℕ)
      → (pool.barriers b).in_batch ≡ true
      → barrier_passes (pool.barriers b) ≡ true
      → Step pool (end_batch b pool)
  stopped : Step pool (record pool { shutdown = true })

pub data Reach (num_threads : ℕ) : ThreadPool → Type 0 where
  created : (pool : ThreadPool) → th_pool_create num_threads ≡ some pool → Reach num_threads pool
  later :
      {pool pool' : ThreadPool} → Reach num_threads pool → Step pool pool' → Reach num_threads pool'

-- No node is lost, the capacity grows to one past its limit at most, a barrier's open jobs are
-- those in the queue and those that workers hold, none outside a batch, and `live` counts the threads.
pub record IsPool (pool : ThreadPool) : Type 0 where
  pub nodes_kept :
      pool.job_queue.free_nodes + length pool.job_queue.jobs ≡ pool.job_queue.capacity + 1
  pub capacity_bound : pool.job_queue.capacity ≤ pool.job_queue.max_capacity + 1
  pub max_is : pool.job_queue.max_capacity ≡ max_cap
  pub open_jobs :
      (b : ℕ)
      → (pool.barriers b).posted_count
        ≡ (pool.barriers b).done_count + queued b pool.job_queue.jobs + held b pool.workers
  pub live_is : pool.live ≡ count is_live pool.workers
  pub rested :
      (b : ℕ)
      → (pool.barriers b).in_batch ≡ false
      → queued b pool.job_queue.jobs + held b pool.workers ≡ 0
