-- ===== src/ThreadPool/Kept.antt =====
-- What holds in every state that the steps of the pool of src/threadpool.cc reach.
use pinba_engine.Common.{
  ==_iff, Bool-cases, List, ap, arith, false, inl, inr, length, nat_eq, refl, some, string_eq,
  subst, sym, true, ℕ, ◌++◌, ◌==◌, ◌∙◌, ◌∷◌, ◌≡◌, ◌≤◌,
}
use pinba_engine.ThreadPool.{
  Job, JobQueue, ThreadPool, Worker, barrier_passes, dispatch, end_batch, end_job, gone, leave,
  queue_can_accept_order, queue_fetch_job, running, start_batch, take_job, th_pool_barrier_start,
  th_pool_barrier_wait, waiting,
}
use pinba_engine.ThreadPool.Count.{count, count-around, held, held-around, is_live, queued}
use pinba_engine.ThreadPool.Steps.{
  IsPool, Reach, Step, created, dispatched, ended, later, left, may_post, started, stopped, taken,
  waited,
}
use pinba_engine.ThreadPool.Made.{th_pool_create-IsPool}
use pinba_engine.ThreadPool.Changes.{
  IfFetched, barrier_posted_lem, may_post-elsewhere, queue_fetch_job-IfFetched, queue_post_job-kept,
  queued-cons, th_pool_barrier_signal_lem,
}

dispatch-IsPool :
    (pool : ThreadPool) (job : Job)
    → may_post job.barrier pool.barriers ≡ true
    → queue_can_accept_order pool.job_queue ≡ true
    → IsPool pool
    → IsPool (dispatch job pool)
unfolding dispatch
dispatch-IsPool pool job may ok v =
    let post = queue_post_job-kept pool.job_queue job ok v.nodes_kept v.capacity_bound in
    record {
      nodes_kept = post.0;
      capacity_bound = post.1;
      max_is = post.2 ∙ v.max_is;
      open_jobs = λ b. rw post.3 (
          unfold queued in
          omega (
            arith,
            v.open_jobs b,
            (barrier_posted_lem job.barrier pool.barriers b).0,
            (barrier_posted_lem job.barrier pool.barriers b).1,
          ));
      rested = λ b out. rw post.3 (
          unfold queued in
          let batch = sym (barrier_posted_lem job.barrier pool.barriers b).2 ∙ out in
          omega
            (arith, v.rested b batch, may_post-elsewhere job.barrier pool.barriers b may batch));
      live_is = v.live_is;
    }

take_job-IsPool :
    (pool : ThreadPool) (before after : List Worker) (job : Job) (q : JobQueue)
    → pool.workers ≡ before ++ waiting ∷ after
    → queue_fetch_job pool.job_queue ≡ some (job, q)
    → IsPool pool
    → IsPool (take_job before after job q pool)
unfolding take_job
take_job-IsPool pool before after job q here e v =
    let fetched =
      subst (IfFetched pool.job_queue) e
        (queue_fetch_job-IfFetched pool.job_queue pool.job_queue.jobs refl) in
    record {
      nodes_kept = omega (arith, v.nodes_kept, ap length fetched.0, fetched.1, fetched.2);
      capacity_bound = omega (arith, v.capacity_bound, fetched.2, fetched.3);
      max_is = fetched.3 ∙ v.max_is;
      open_jobs = λ b. omega (
        arith,
        v.open_jobs b,
        ap (held b) here,
        ap (queued b) fetched.0,
        queued-cons b job q.jobs,
        held-around b before (running job) after,
        held-around b before waiting after,
      );
      rested = λ b out. omega (
        arith,
        v.rested b out,
        ap (held b) here,
        ap (queued b) fetched.0,
        queued-cons b job q.jobs,
        held-around b before (running job) after,
        held-around b before waiting after,
      );
      live_is = omega (
        arith,
        v.live_is,
        ap (count is_live) here,
        count-around is_live before (running job) after,
        count-around is_live before waiting after,
      );
    }

end_job-IsPool :
    (pool : ThreadPool) (before after : List Worker) (job : Job)
    → pool.workers ≡ before ++ running job ∷ after
    → IsPool pool
    → IsPool (end_job before after job pool)
unfolding end_job
end_job-IsPool pool before after job here v = record {
  nodes_kept = v.nodes_kept;
  capacity_bound = v.capacity_bound;
  max_is = v.max_is;
  open_jobs = λ b. omega (
    arith,
    v.open_jobs b,
    ap (held b) here,
    held-around b before (running job) after,
    held-around b before waiting after,
    (th_pool_barrier_signal_lem job.barrier pool.barriers b).0,
    (th_pool_barrier_signal_lem job.barrier pool.barriers b).1,
  );
  rested = λ b out. omega (
    arith,
    v.rested b (sym (th_pool_barrier_signal_lem job.barrier pool.barriers b).2 ∙ out),
    ap (held b) here,
    held-around b before (running job) after,
    held-around b before waiting after,
  );
  live_is = omega (
    arith,
    v.live_is,
    ap (count is_live) here,
    count-around is_live before (running job) after,
    count-around is_live before waiting after,
  );
}

leave-IsPool :
    (pool : ThreadPool) (before after : List Worker)
    → pool.workers ≡ before ++ waiting ∷ after
    → IsPool pool
    → IsPool (leave before after pool)
unfolding leave
leave-IsPool pool before after here v = record {
  nodes_kept = v.nodes_kept;
  capacity_bound = v.capacity_bound;
  max_is = v.max_is;
  open_jobs = λ b. omega (
    arith,
    v.open_jobs b,
    ap (held b) here,
    held-around b before gone after,
    held-around b before waiting after,
  );
  rested = λ b out. omega (
    arith,
    v.rested b out,
    ap (held b) here,
    held-around b before gone after,
    held-around b before waiting after,
  );
  live_is = omega (
    arith,
    v.live_is,
    ap (count is_live) here,
    count-around is_live before gone after,
    count-around is_live before waiting after,
  );
}

-- A barrier that is started has no open job.
start_batch-IsPool :
    (b : ℕ) (pool : ThreadPool)
    → (pool.barriers b).in_batch ≡ false
    → IsPool pool
    → IsPool (start_batch b pool)
unfolding start_batch th_pool_barrier_start
start_batch-IsPool a pool out v = record {
  nodes_kept = v.nodes_kept;
  capacity_bound = v.capacity_bound;
  max_is = v.max_is;
  open_jobs = λ b. elim (Bool-cases (a == b)) [
    | inl here ↦
        let out' : (pool.barriers b).in_batch ≡ false = rw (← (==_iff a b).0 here) out in
        rw here (omega (arith, v.rested b out'))
    | inr other ↦ rw other (v.open_jobs b)
  ];
  rested = λ b. elim (Bool-cases (a == b)) [
    | inl here ↦ rw here (λ e. absurd (ground arith))
    | inr other ↦ rw other (v.rested b)
  ];
  live_is = v.live_is;
}

end_batch-IsPool :
    (b : ℕ) (pool : ThreadPool)
    → barrier_passes (pool.barriers b) ≡ true
    → IsPool pool
    → IsPool (end_batch b pool)
unfolding end_batch th_pool_barrier_wait barrier_passes
end_batch-IsPool a pool passes v = record {
  nodes_kept = v.nodes_kept;
  capacity_bound = v.capacity_bound;
  max_is = v.max_is;
  open_jobs = λ b. elim (Bool-cases (a == b)) [
    | inl here ↦ rw here (v.open_jobs b)
    | inr other ↦ rw other (v.open_jobs b)
  ];
  rested = λ b. elim (Bool-cases (a == b)) [
    | inl here ↦
        let done : (pool.barriers b).posted_count ≤ (pool.barriers b).done_count =
          rw (← (==_iff a b).0 here) (ground arith) in
        rw here (λ e. omega (arith, done, v.open_jobs b))
    | inr other ↦ rw other (v.rested b)
  ];
  live_is = v.live_is;
}

Step-IsPool : (pool pool' : ThreadPool) → Step pool pool' → IsPool pool → IsPool pool'
Step-IsPool pool _ (dispatched job may ok) v = dispatch-IsPool pool job may ok v
Step-IsPool pool _ (taken before after job q here e) v =
    take_job-IsPool pool before after job q here e v
Step-IsPool pool _ (ended before after job here) v = end_job-IsPool pool before after job here v
Step-IsPool pool _ (left before after here down empty) v = leave-IsPool pool before after here v
Step-IsPool pool _ (started b out) v = start_batch-IsPool b pool out v
Step-IsPool pool _ (waited b inside passes) v = end_batch-IsPool b pool passes v
Step-IsPool pool _ stopped v = record {
  nodes_kept = v.nodes_kept;
  capacity_bound = v.capacity_bound;
  max_is = v.max_is;
  open_jobs = v.open_jobs;
  live_is = v.live_is;
  rested = v.rested;
}

-- In every state that the workers, the threads that start batches, post their jobs and wait for
-- them, and a shutdown reach from a new pool, no node of the queue is lost, the capacity is at most
-- one past its limit, every barrier has posted as many jobs as are done, queued or held by workers,
-- a barrier outside a batch has no job queued or held, and `live` is the number of the threads that
-- have not left.
pub Reach-IsPool : (n : ℕ) (pool : ThreadPool) → Reach n pool → IsPool pool
Reach-IsPool n pool (created _ e) = th_pool_create-IsPool n pool e
Reach-IsPool n pool (later {pool = pool0} past step) =
    Step-IsPool pool0 pool step (Reach-IsPool n pool0 past)
