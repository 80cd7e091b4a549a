-- ===== src/ThreadPool/Drain.antt =====
-- The workers of src/threadpool.cc get every barrier open, in whatever order they run.
use pinba_engine.Common.{
  ==_iff, Bool-cases, List, Option, [], ap, arith, false, inl, inr, length, nat_eq, none, refl,
  some, string_eq, subst, suc, true, ℕ, ◌*◌, ◌++◌, ◌+◌, ◌<◌, ◌==◌, ◌↔◌, ◌∷◌, ◌≡◌, ◌≤◌,
}
use pinba_engine.ThreadPool.{
  Job, JobQueue, ThreadPool, Worker, barrier_passes, end_job, gone, queue_fetch_job, running,
  take_job, waiting,
}
use pinba_engine.ThreadPool.Count.{
  count, count-around, held, is_busy, is_live, of_barrier-le, queued,
}
use pinba_engine.ThreadPool.Steps.{Reach}
use pinba_engine.ThreadPool.Made.{}
use pinba_engine.ThreadPool.Kept.{Reach-IsPool}
use pinba_engine.ThreadPool.Changes.{IfFetched, queue_fetch_job-IfFetched}

-- A worker takes a job, or ends one.
pub data WorkerStep (pool : ThreadPool) : ThreadPool → Type 0 where
  takes :
      (before after : List Worker) (job : Job) (q : JobQueue)
      → pool.workers ≡ before ++ waiting ∷ after
      → queue_fetch_job pool.job_queue ≡ some (job, q)
      → WorkerStep pool (take_job before after job q pool)
  ends :
      (before after : List Worker) (job : Job)
      → pool.workers ≡ before ++ running job ∷ after
      → WorkerStep pool (end_job before after job pool)

pub data Works : ℕ → ThreadPool → ThreadPool → Type 0 where
  idle : (pool : ThreadPool) → Works 0 pool pool
  works :
      (k : ℕ) (pool mid last : ThreadPool)
      → WorkerStep pool mid
      → Works k mid last
      → Works (suc k) pool last

-- The worker steps that are left.
unfoldable pub work_left : ThreadPool → ℕ
work_left pool = 2 * length pool.job_queue.jobs + count is_busy pool.workers

step_uses_one :
    (pool pool' : ThreadPool) → WorkerStep pool pool' → suc (work_left pool') ≡ work_left pool
unfolding work_left take_job end_job
step_uses_one pool _ (takes before after job q here e) =
    let fetched =
      subst (IfFetched pool.job_queue) e
        (queue_fetch_job-IfFetched pool.job_queue pool.job_queue.jobs refl) in
    omega (
      arith,
      ap length fetched.0,
      ap (count is_busy) here,
      count-around is_busy before (running job) after,
      count-around is_busy before waiting after,
    )
step_uses_one pool _ (ends before after job here) = omega (
  arith,
  ap (count is_busy) here,
  count-around is_busy before (running job) after,
  count-around is_busy before waiting after,
)

-- Every step in which a worker takes or ends a job uses up one of the steps that are left, two for
-- each queued job and one for each that is held: the workers alone always come to an end.
pub Works-end :
    (k : ℕ) (pool pool' : ThreadPool) → Works k pool pool' → k + work_left pool' ≡ work_left pool
Works-end _ pool _ (idle _) = omega arith
Works-end _ pool last (works k _ mid _ step rest) =
    omega (arith, Works-end k mid last rest, step_uses_one pool mid step)

-- A worker with a job, and one without.
abbrev Split : (Worker → Type 0) → List Worker → Type 0
Split P ws =
    (before : List Worker) × (w : Worker) × (after : List Worker) × P w × (ws ≡ before ++ w ∷ after)

abbrev IsRunning : Worker → Type 0
IsRunning waiting = ⊥
IsRunning gone = ⊥
IsRunning (running job) = Unit

find_busy : (ws : List Worker) → 0 < count is_busy ws → Split IsRunning ws
unfolding count
find_busy [] h = absurd (omega arith)
find_busy (running job ∷ ws) h = ([], running job, ws, tt, refl)
find_busy (waiting ∷ ws) h =
    let (before, w, after, is_it, e) = find_busy ws (omega arith) in
    (waiting ∷ before, w, after, is_it, ap (λ l. waiting ∷ l) e)
find_busy (gone ∷ ws) h =
    let (before, w, after, is_it, e) = find_busy ws (omega arith) in
    (gone ∷ before, w, after, is_it, ap (λ l. gone ∷ l) e)

abbrev IsWaiting : Worker → Type 0
IsWaiting waiting = Unit
IsWaiting gone = ⊥
IsWaiting (running job) = ⊥

find-IsWaiting :
    (ws : List Worker) → 0 < count is_live ws → count is_busy ws ≡ 0 → Split IsWaiting ws
unfolding count
find-IsWaiting [] h z = absurd (omega arith)
find-IsWaiting (running job ∷ ws) h z = absurd (omega arith)
find-IsWaiting (waiting ∷ ws) h z = ([], waiting, ws, tt, refl)
find-IsWaiting (gone ∷ ws) h z =
    let (before, w, after, is_it, e) = find-IsWaiting ws (omega arith) (omega arith) in
    (gone ∷ before, w, after, is_it, ap (λ l. gone ∷ l) e)

queued-le : (b : ℕ) (jobs : List Job) → queued b jobs ≤ length jobs
unfolding queued
queued-le b [] = omega arith
queued-le b (job ∷ jobs) = omega (arith, queued-le b jobs, of_barrier-le b job.barrier)

held-le : (b : ℕ) (ws : List Worker) → held b ws ≤ count is_busy ws
unfolding held count
held-le b [] = omega arith
held-le b (waiting ∷ ws) = omega (arith, held-le b ws)
held-le b (gone ∷ ws) = omega (arith, held-le b ws)
held-le b (running job ∷ ws) = omega (arith, held-le b ws, of_barrier-le b job.barrier)

-- In every state that the workers, the threads that start batches, post their jobs and wait for
-- them, and a shutdown reach, a barrier passes exactly when the queue has none of its jobs and no
-- worker holds one. A start, which sets both counters to 0, comes after the wait for the batch before.
pub barrier_passes_iff :
    (n : ℕ) (pool : ThreadPool) (b : ℕ)
    → Reach n pool
    → (barrier_passes (pool.barriers b) ≡ true)
      ↔ ((queued b pool.job_queue.jobs ≡ 0) × (held b pool.workers ≡ 0))
unfolding barrier_passes
barrier_passes_iff n pool b past =
    let open_jobs = (Reach-IsPool n pool past).open_jobs b in
    (
      (λ e. (ground (arith, open_jobs), ground (arith, open_jobs))),
      (λ e. ground (arith, open_jobs, e.0, e.1)),
    )

end_step :
    (pool : ThreadPool)
    → Split IsRunning pool.workers
    → (pool' : ThreadPool) × WorkerStep pool pool'
end_step pool (before, running job, after, is_it, e) =
    (end_job before after job pool, ends before after job e)
end_step pool (before, waiting, after, is_it, e) = absurd is_it
end_step pool (before, gone, after, is_it, e) = absurd is_it

take_step :
    (pool : ThreadPool) (o : Option (Job × JobQueue))
    → queue_fetch_job pool.job_queue ≡ o
    → 0 < length pool.job_queue.jobs
    → Split IsWaiting pool.workers
    → (pool' : ThreadPool) × WorkerStep pool pool'
take_step pool none e b split =
    let empty =
      subst (IfFetched pool.job_queue) e
        (queue_fetch_job-IfFetched pool.job_queue pool.job_queue.jobs refl) in
    absurd (omega (arith, ap length empty))
take_step pool (some (job, q)) e b (before, waiting, after, is_it, here) =
    (take_job before after job q pool, takes before after job q here e)
take_step pool (some (job, q)) e b (before, gone, after, is_it, here) = absurd is_it
take_step pool (some (job, q)) e b (before, running other, after, is_it, here) = absurd is_it

-- In every reachable state with a live thread in which a barrier does not pass, a worker can take
-- or end a job.
pub barrier_progress :
    (n : ℕ) (pool : ThreadPool) (b : ℕ)
    → Reach n pool
    → 0 < pool.live
    → barrier_passes (pool.barriers b) ≡ false
    → (pool' : ThreadPool) × WorkerStep pool pool'
unfolding barrier_passes
barrier_progress n pool b past alive shut =
    let v = Reach-IsPool n pool past in
    let waits : (pool.barriers b).done_count < (pool.barriers b).posted_count = ground arith in
    elim (Bool-cases (count is_busy pool.workers == 0)) [
      | inl none_busy ↦
          let none_is : count is_busy pool.workers ≡ 0 =
            (==_iff (count is_busy pool.workers) 0).0 none_busy in
          take_step pool (queue_fetch_job pool.job_queue) refl
            (omega (
              arith,
              waits,
              v.open_jobs b,
              queued-le b pool.job_queue.jobs,
              held-le b pool.workers,
              none_is,
            ))
            (find-IsWaiting pool.workers (omega (arith, v.live_is)) none_is)
      | inr one_busy ↦ end_step pool (find_busy pool.workers (ground arith))
    ]
