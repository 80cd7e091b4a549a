-- ===== src/TagReport/Members.antt =====
-- What a tag report of src/data.cc should say: the live requests that have timers in a group, and
-- the totals over those timers.
use pinba_engine.Common.{
  All, Bool, Eq, List, Option, [], append_assoc, arith, false, if◌then◌else◌, int_laws, length,
  nat_eq, none, pos, refl, select, some, string_eq, suc, sym, true, ℕ, ℤ, ◌++◌, ◌+ℤ◌, ◌+◌, ◌∷◌, ◌≡◌,
  ◌≢◌, ◌≤◌,
}
use pinba_engine.Time.{IsNormal, Timeval, micros}
use pinba_engine.Floats.{Floats}
use pinba_engine.Histogram.{}
use pinba_engine.Histogram.Counts.{}
use pinba_engine.Record.{StatsRecord}
use pinba_engine.TagReport.{Timer}

-- A live request: its id, which is its place in the request pool, its record and its timers.
pub record Live (fl : Floats) : Type 0 where
  pub request_id : ℕ
  pub request : StatsRecord fl
  pub timers : List Timer

-- A request with its timers of one group.
abbrev pub Member : Type 0
Member = ℕ × List Timer

-- Microseconds, and hits, over a list of timers.
unfoldable pub total_time : (Timer → Timeval) → List Timer → ℤ
total_time f [] = pos 0
total_time f (t ∷ ts) = micros (f t) +ℤ total_time f ts

unfoldable pub sum_hits : (Timer → Bool) → List Timer → ℕ
sum_hits p [] = 0
sum_hits p (t ∷ ts) = (if p t then t.hit_count else 0) + sum_hits p ts

unfoldable pub all_timers : List Member → List Timer
all_timers [] = []
all_timers ((id, ts) ∷ ms) = ts ++ all_timers ms

abbrev pub any_timer : Timer → Bool
any_timer t = true

pub total_time-append :
    (f : Timer → Timeval) (xs ys : List Timer)
    → total_time f (xs ++ ys) ≡ total_time f xs +ℤ total_time f ys
unfolding total_time
total_time-append f [] ys = omega int_laws
total_time-append f (x ∷ xs) ys = rw (total_time-append f xs ys) (omega int_laws)

pub sum_hits-append :
    (p : Timer → Bool) (xs ys : List Timer) → sum_hits p (xs ++ ys) ≡ sum_hits p xs + sum_hits p ys
unfolding sum_hits
sum_hits-append p [] ys = omega arith
sum_hits-append p (x ∷ xs) ys = omega (arith, sum_hits-append p xs ys)

pub all_timers-append :
    (ms ns : List Member) → all_timers (ms ++ ns) ≡ all_timers ms ++ all_timers ns
unfolding all_timers
all_timers-append [] ns = refl
all_timers-append ((id, ts) ∷ ms) ns =
    rw (all_timers-append ms ns) (sym (append_assoc ts (all_timers ms) (all_timers ns)))

-- The times of a timer are normal.
pub record IsTimerNormal (t : Timer) : Type 0 where
  pub value_normal : IsNormal t.value
  pub utime_normal : IsNormal t.ru_utime
  pub stime_normal : IsNormal t.ru_stime

module _ {K : Type 0} ⦃e : Eq K⦄ where
  abbrev pub in_key : K → Option K → Bool
  in_key k none = false
  in_key k (some j) = e.beq j k

  -- The timers of a group.
  abbrev pub matching : (Timer → Option K) → K → List Timer → List Timer
  matching key k ts = select (λ t. in_key k (key t)) ts

abbrev pub cons_member : ℕ → List Timer → List Member → List Member
cons_member id [] ms = ms
cons_member id (t ∷ ts) ms = (id, t ∷ ts) ∷ ms

module _ {fl : Floats} {K : Type 0} ⦃e : Eq K⦄ (key_of : StatsRecord fl → Timer → Option K) where
  -- The requests with timers in the group, oldest first.
  unfoldable pub members : K → List (Live fl) → List Member
  members k [] = []
  members k (r ∷ live) =
      cons_member r.request_id (matching (key_of r.request) k r.timers) (members k live)

  pub members-snoc :
      (k : K) (live : List (Live fl)) (r : Live fl)
      → members k (live ++ r ∷ [])
        ≡ members k live ++ cons_member r.request_id (matching (key_of r.request) k r.timers) []
  unfolding members
  members-snoc k [] r = refl
  members-snoc k (q ∷ live) r = rw (members-snoc k live r) (
      cons-append q.request_id (matching (key_of q.request) k q.timers) (members k live)
        (cons_member r.request_id (matching (key_of r.request) k r.timers) []))
    where
      cons-append :
          (id : ℕ) (ts : List Timer) (ms ns : List Member)
          → cons_member id ts (ms ++ ns) ≡ cons_member id ts ms ++ ns
      cons-append id [] ms ns = refl
      cons-append id (t ∷ ts) ms ns = refl

  pub length-members-le : (k : K) (live : List (Live fl)) → length (members k live) ≤ length live
  unfolding members
  length-members-le k [] = omega arith
  length-members-le k (r ∷ live) =
      go (matching (key_of r.request) k r.timers) (length-members-le k live)
    where
      go :
          (ts : List Timer)
          → length (members k live) ≤ length live
          → length (cons_member r.request_id ts (members k live)) ≤ suc (length live)
      go [] h = omega arith
      go (t ∷ ts) h = omega arith

  -- The id is that of no live request.
  abbrev pub Unused : ℕ → List (Live fl) → Type 0
  Unused id live = All (λ (r : Live fl). r.request_id ≢ id) live

  pub members-Unused :
      (k : K) (id : ℕ) (live : List (Live fl))
      → Unused id live
      → All (λ (m : Member). m.0 ≢ id) (members k live)
  unfolding members
  members-Unused k id [] h = tt
  members-Unused k id (r ∷ live) h =
      go (matching (key_of r.request) k r.timers) (members-Unused k id live h.1)
    where
      go :
          (ts : List Timer)
          → All (λ (m : Member). m.0 ≢ id) (members k live)
          → All (λ (m : Member). m.0 ≢ id) (cons_member r.request_id ts (members k live))
      go [] rest = rest
      go (t ∷ ts) rest = (h.0, rest)
