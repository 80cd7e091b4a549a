-- ===== src/Tests/Threads.antt =====
-- A thread pool of two threads with one job.
use pinba_engine.Common.{
  [], arith, false, nat_eq, refl, some, string_eq, true, ◌++◌, ◌+◌, ◌<◌, ◌↔◌, ◌∷◌, ◌≡◌,
}
use pinba_engine.ThreadPool.{
  Job, JobQueue, ThreadPool, barrier_passes, dispatch, queue_can_accept_order, queue_create,
  queue_fetch_job, start_batch, take_job, th_pool_create, waiting,
}
use pinba_engine.ThreadPool.Count.{held, queued}
use pinba_engine.ThreadPool.Steps.{IsPool, Reach, created, dispatched, later, may_post, started}
use pinba_engine.ThreadPool.Drain.{
  WorkerStep, Works, Works-end, barrier_passes_iff, barrier_progress, idle, takes, work_left, works,
}
use pinba_engine.ThreadPool.Made.{made}
use pinba_engine.ThreadPool.Kept.{Reach-IsPool}

two_threads : th_pool_create 2 ≡ some (made 2)
unfolding th_pool_create queue_create
two_threads = refl

abbrev job : Job
job = record { func_to_dispatch = 1; func_arg = 2; barrier = some 7 }

abbrev in_batch_7 : ThreadPool
in_batch_7 = start_batch 7 (made 2)

abbrev with_job : ThreadPool
with_job = dispatch job in_batch_7

accepts : queue_can_accept_order in_batch_7.job_queue ≡ true
unfolding queue_can_accept_order start_batch
accepts = refl

may : may_post job.barrier in_batch_7.barriers ≡ true
unfolding start_batch
may = refl

with_job-Reach : Reach 2 with_job
with_job-Reach =
    later (later (created (made 2) two_threads) (started 7 refl)) (dispatched job may accepts)

Reach-IsPool_example : IsPool with_job
Reach-IsPool_example = Reach-IsPool 2 with_job with_job-Reach

shut : barrier_passes (with_job.barriers 7) ≡ false
unfolding barrier_passes dispatch start_batch
shut = refl

two_live : 0 < with_job.live
unfolding dispatch start_batch
two_live = omega arith

barrier_progress_example : (pool' : ThreadPool) × WorkerStep with_job pool'
barrier_progress_example = barrier_progress 2 with_job 7 with_job-Reach two_live shut

barrier_passes_iff_example :
    (barrier_passes (with_job.barriers 7) ≡ true)
    ↔ ((queued 7 with_job.job_queue.jobs ≡ 0) × (held 7 with_job.workers ≡ 0))
barrier_passes_iff_example = barrier_passes_iff 2 with_job 7 with_job-Reach

abbrev rest_queue : JobQueue
rest_queue = record with_job.job_queue { jobs = []; free_nodes = 3 }

fetched : queue_fetch_job with_job.job_queue ≡ some (job, rest_queue)
unfolding queue_fetch_job dispatch start_batch
fetched = refl

workers_there : with_job.workers ≡ [] ++ waiting ∷ (waiting ∷ [])
unfolding dispatch start_batch
workers_there = refl

abbrev taken_one : ThreadPool
taken_one = take_job [] (waiting ∷ []) job rest_queue with_job

one_step : Works 1 with_job taken_one
one_step =
    works 0 with_job taken_one taken_one
      (takes [] (waiting ∷ []) job rest_queue workers_there fetched) (idle taken_one)

Works-end_example : 1 + work_left taken_one ≡ work_left with_job
Works-end_example = Works-end 1 with_job taken_one one_step
