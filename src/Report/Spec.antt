-- ===== src/Report/Spec.antt =====
-- What the rows of a report say of a list of live records: the specification of the updates in
-- src/pinba_update_report_tpl.h.
use pinba_engine.Common.{
  Bool, Bool-cases, List, [], arith, if◌then◌else◌, inl, inr, int_laws, length, nat_eq, pos, refl,
  string_eq, ℕ, ℤ, ◌++◌, ◌+ℤ◌, ◌+◌, ◌∷◌, ◌≡◌, ◌≤◌,
}
use pinba_engine.Time.{Timeval, micros}
use pinba_engine.Floats.{Floats}
use pinba_engine.Histogram.{}
use pinba_engine.Histogram.Counts.{}
use pinba_engine.Record.{StatsRecord}
use pinba_engine.Report.Sums.{hit}

-- Each of these is a sum over the records, by the weight that a record has.
module _ {fl : Floats} where
  -- How many of the records there are for which the test holds.
  unfoldable pub tally : (StatsRecord fl → Bool) → List (StatsRecord fl) → ℕ
  tally p [] = 0
  tally p (r ∷ rs) = hit (p r) + tally p rs

  -- The microseconds that those records took.
  unfoldable pub total :
      (StatsRecord fl → Bool) → (StatsRecord fl → Timeval) → List (StatsRecord fl) → ℤ
  total p f [] = pos 0
  total p f (r ∷ rs) = if p r then micros (f r) +ℤ total p f rs else total p f rs

  pub tally-append :
      (p : StatsRecord fl → Bool) (xs ys : List (StatsRecord fl))
      → tally p (xs ++ ys) ≡ tally p xs + tally p ys
  unfolding tally
  tally-append p [] ys = omega arith
  tally-append p (x ∷ xs) ys = omega (arith, tally-append p xs ys)

  pub total-append :
      (p : StatsRecord fl → Bool) (f : StatsRecord fl → Timeval) (xs ys : List (StatsRecord fl))
      → total p f (xs ++ ys) ≡ total p f xs +ℤ total p f ys
  unfolding total
  total-append p f [] ys = omega int_laws
  total-append p f (x ∷ xs) ys = elim (Bool-cases (p x)) [
    | inl e ↦ rw (e, total-append p f xs ys) (omega int_laws)
    | inr e ↦ rw (e, total-append p f xs ys) refl
  ]

  pub tally-le-length :
      (p : StatsRecord fl → Bool) (xs : List (StatsRecord fl)) → tally p xs ≤ length xs
  unfolding tally
  tally-le-length p [] = omega arith
  tally-le-length p (x ∷ xs) = ground (arith, tally-le-length p xs)

  pub tally-snoc :
      (p : StatsRecord fl → Bool) (xs : List (StatsRecord fl)) (r : StatsRecord fl)
      → tally p (xs ++ r ∷ []) ≡ hit (p r) + tally p xs
  unfolding tally
  tally-snoc p xs r = rw (tally-append p xs (r ∷ [])) (omega arith)

  pub total-snoc :
      (p : StatsRecord fl → Bool) (f : StatsRecord fl → Timeval) (xs : List (StatsRecord fl))
      (r : StatsRecord fl)
      → total p f (xs ++ r ∷ []) ≡ (if p r then micros (f r) +ℤ total p f xs else total p f xs)
  unfolding total
  total-snoc p f xs r = elim (Bool-cases (p r)) [
    | inl e ↦ rw (total-append p f xs (r ∷ []), e) (omega int_laws)
    | inr e ↦ rw (total-append p f xs (r ∷ []), e) (omega int_laws)
  ]
