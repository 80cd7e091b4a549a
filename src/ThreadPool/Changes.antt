-- ===== src/ThreadPool/Changes.antt =====
-- What posting, fetching and signalling do to the queue and the barriers of src/threadpool.cc.
use pinba_engine.Common.{
  ==_iff, Bool-cases, List, Option, [], arith, false, inl, inr, length, nat_eq, none, refl, some,
  string_eq, true, ℕ, ◌+◌, ◌==◌, ◌∷◌, ◌≡◌, ◌≤◌,
}
use pinba_engine.ThreadPool.{
  Barrier, Job, JobQueue, barrier_posted, queue_can_accept_order, queue_fetch_job, queue_node,
  queue_post_job, th_pool_barrier_signal,
}
use pinba_engine.ThreadPool.Count.{of_barrier, queued}
use pinba_engine.ThreadPool.Steps.{may_post}

pub queue_post_job-kept :
    (q : JobQueue) (job : Job)
    → queue_can_accept_order q ≡ true
    → q.free_nodes + length q.jobs ≡ q.capacity + 1
    → q.capacity ≤ q.max_capacity + 1
    → let q' = queue_post_job job q in
      (q'.free_nodes + length q'.jobs ≡ q'.capacity + 1)
      × (q'.capacity ≤ q'.max_capacity + 1)
      × (q'.max_capacity ≡ q.max_capacity)
      × (q'.jobs ≡ job ∷ q.jobs)
unfolding queue_post_job queue_node queue_can_accept_order
queue_post_job-kept q job ok nodes bound = elim (Bool-cases (q.free_nodes == 0)) [
  | inl none_free ↦ rw none_free (ground arith, ground arith, refl, refl)
  | inr one_free ↦ rw one_free (ground arith, ground arith, refl, refl)
]

pub barrier_posted_lem :
    (o : Option ℕ) (barriers : ℕ → Barrier) (b : ℕ)
    → ((barrier_posted o barriers b).posted_count ≡ (barriers b).posted_count + of_barrier b o)
      × ((barrier_posted o barriers b).done_count ≡ (barriers b).done_count)
      × ((barrier_posted o barriers b).in_batch ≡ (barriers b).in_batch)
unfolding barrier_posted
barrier_posted_lem none barriers b = (omega arith, refl, refl)
barrier_posted_lem (some a) barriers b = elim (Bool-cases (a == b)) [
  | inl here ↦ rw here (omega arith, refl, refl)
  | inr other ↦ rw other (omega arith, refl, refl)
]

pub th_pool_barrier_signal_lem :
    (o : Option ℕ) (barriers : ℕ → Barrier) (b : ℕ)
    → ((th_pool_barrier_signal o barriers b).done_count ≡ (barriers b).done_count + of_barrier b o)
      × ((th_pool_barrier_signal o barriers b).posted_count ≡ (barriers b).posted_count)
      × ((th_pool_barrier_signal o barriers b).in_batch ≡ (barriers b).in_batch)
unfolding th_pool_barrier_signal
th_pool_barrier_signal_lem none barriers b = (omega arith, refl, refl)
th_pool_barrier_signal_lem (some a) barriers b = elim (Bool-cases (a == b)) [
  | inl here ↦ rw here (omega arith, refl, refl)
  | inr other ↦ rw other (omega arith, refl, refl)
]

-- A job is posted for no barrier that is outside a batch.
pub may_post-elsewhere :
    (o : Option ℕ) (barriers : ℕ → Barrier) (b : ℕ)
    → may_post o barriers ≡ true
    → (barriers b).in_batch ≡ false
    → of_barrier b o ≡ 0
may_post-elsewhere none barriers b may out = refl
may_post-elsewhere (some a) barriers b may out = elim (Bool-cases (a == b)) [
  | inl here ↦
      let is_b : a ≡ b = (==_iff a b).0 here in
      let inside : (barriers b).in_batch ≡ true = rw (← is_b) may in absurd (ground arith)
  | inr other ↦ rw other refl
]

abbrev pub IfFetched : JobQueue → Option (Job × JobQueue) → Type 0
IfFetched q none = q.jobs ≡ []
IfFetched q (some (job, q')) =
    (q.jobs ≡ job ∷ q'.jobs)
    × (q'.free_nodes ≡ q.free_nodes + 1)
    × (q'.capacity ≡ q.capacity)
    × (q'.max_capacity ≡ q.max_capacity)

pub queue_fetch_job-IfFetched :
    (q : JobQueue) (jobs : List Job) → q.jobs ≡ jobs → IfFetched q (queue_fetch_job q)
unfolding queue_fetch_job
queue_fetch_job-IfFetched q [] e = rw e refl
queue_fetch_job-IfFetched q (job ∷ rest) e = rw e (refl, refl, refl, refl)

pub queued-cons :
    (b : ℕ) (job : Job) (jobs : List Job)
    → queued b (job ∷ jobs) ≡ of_barrier b job.barrier + queued b jobs
unfolding queued
queued-cons b job jobs = refl
