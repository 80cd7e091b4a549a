-- ===== src/ThreadPool/Count.antt =====
-- Counting the jobs of a barrier in the queue and in the hands of the workers of src/threadpool.cc.
use pinba_engine.Common.{
  List, Option, [], arith, if◌then◌else◌, nat_eq, none, refl, replicate, some, string_eq, suc, zero,
  ℕ, ◌++◌, ◌+◌, ◌==◌, ◌∷◌, ◌≡◌, ◌≤◌,
}
use pinba_engine.ThreadPool.{Job, Worker, gone, running, waiting}

-- 1 for a job of the barrier.
abbrev pub of_barrier : ℕ → Option ℕ → ℕ
of_barrier b none = 0
of_barrier b (some a) = if a == b then 1 else 0

pub of_barrier-le : (b : ℕ) (o : Option ℕ) → of_barrier b o ≤ 1
of_barrier-le b none = omega arith
of_barrier-le b (some a) = ground arith

unfoldable pub queued : ℕ → List Job → ℕ
queued b [] = 0
queued b (job ∷ jobs) = of_barrier b job.barrier + queued b jobs

abbrev pub held_by : ℕ → Worker → ℕ
held_by b waiting = 0
held_by b gone = 0
held_by b (running job) = of_barrier b job.barrier

unfoldable pub held : ℕ → List Worker → ℕ
held b [] = 0
held b (w ∷ ws) = held_by b w + held b ws

-- 1 for a thread that is there, and for one with a job.
abbrev pub is_live : Worker → ℕ
is_live waiting = 1
is_live gone = 0
is_live (running job) = 1

abbrev pub is_busy : Worker → ℕ
is_busy waiting = 0
is_busy gone = 0
is_busy (running job) = 1

unfoldable pub count : (Worker → ℕ) → List Worker → ℕ
count f [] = 0
count f (w ∷ ws) = f w + count f ws

pub held-around :
    (b : ℕ) (before : List Worker) (w : Worker) (after : List Worker)
    → held b (before ++ w ∷ after) ≡ held b before + held_by b w + held b after
unfolding held
held-around b [] w after = omega arith
held-around b (v ∷ before) w after = omega (arith, held-around b before w after)

pub count-around :
    (f : Worker → ℕ) (before : List Worker) (w : Worker) (after : List Worker)
    → count f (before ++ w ∷ after) ≡ count f before + f w + count f after
unfolding count
count-around f [] w after = omega arith
count-around f (v ∷ before) w after = omega (arith, count-around f before w after)

pub held-replicate : (b n : ℕ) → held b (replicate n waiting) ≡ 0
unfolding held
held-replicate b zero = refl
held-replicate b (suc n) = omega (arith, held-replicate b n)

pub count-replicate : (n : ℕ) → count is_live (replicate n waiting) ≡ n
unfolding count
count-replicate zero = refl
count-replicate (suc n) = omega (arith, count-replicate n)
