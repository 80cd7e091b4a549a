-- ===== src/Report/Rows.antt =====
-- One row of a report and the live records of its group.
use pinba_engine.Common.{
  Bool, Bool-cases, List, Option, [], arith, false, find, inl, inr, length, nat_eq, none, pos, refl,
  some, string_eq, sym, true, ℕ, ◌&&◌, ◌++◌, ◌+ℤ◌, ◌+◌, ◌-◌, ◌<◌, ◌^◌, ◌∙◌, ◌∷◌, ◌≡◌,
}
use pinba_engine.Time.{Timeval, micros}
use pinba_engine.Floats.{Floats}
use pinba_engine.Lmap.{lmap_get}
use pinba_engine.Histogram.{HistogramConfig, histogram_value}
use pinba_engine.Histogram.Counts.{is_slot}
use pinba_engine.Record.{IsTimed, StatsRecord}
use pinba_engine.Report.Sums.{
  Holds, SumsTo, add-Holds, hit, null-SumsTo, remove-Holds, slot_of, timeradd-SumsTo,
  timersub-SumsTo,
}
use pinba_engine.Report.Spec.{tally, tally-le-length, tally-snoc, total, total-snoc}
use pinba_engine.Report.{Label, ReportData, add_to_row, new_row, subtract_from_row}

module _ (fl : Floats) (cfg : HistogramConfig fl) where
  -- The record is in the group, and its time in the bucket.
  abbrev pub in_bucket : (StatsRecord fl → Bool) → ℕ → StatsRecord fl → Bool
  in_bucket p j r = p r && is_slot (slot_of fl cfg r.req_time) j

  -- The row holds the number, the times and the histogram of the live records of the group `p`.
  pub record IsRow (p : StatsRecord fl → Bool) (live : List (StatsRecord fl)) (d : ReportData fl)
      : Type 0 where
    pub counted : d.req_count ≡ tally p live
    pub req_time_sum : SumsTo d.req_time_total (total p (λ r. r.req_time) live)
    pub ru_utime_sum : SumsTo d.ru_utime_total (total p (λ r. r.ru_utime) live)
    pub ru_stime_sum : SumsTo d.ru_stime_total (total p (λ r. r.ru_stime) live)
    pub buckets : Holds d.histogram_data (λ j. tally (in_bucket p j) live)

  abbrev pub RowOk :
      (StatsRecord fl → Bool) → List (StatsRecord fl) → Option (ReportData fl) → Type 0
  RowOk p live none = tally p live ≡ 0
  RowOk p live (some d) = (0 < tally p live) × IsRow p live d

  module _ (p : StatsRecord fl → Bool) (live : List (StatsRecord fl)) where
    bucket_bound : (j : ℕ) → length live < 2 ^ 64 - 1 → tally (in_bucket p j) live < 2 ^ 64 - 1
    bucket_bound j b = omega (arith, tally-le-length (in_bucket p j) live)

    -- A list with one more record of the group, or of another.
    total-cons :
        (f : StatsRecord fl → Timeval) (r : StatsRecord fl)
        → p r ≡ true
        → total p f (r ∷ live) ≡ micros (f r) +ℤ total p f live
    unfolding total
    total-cons f r e = rw e refl

    total-cons_other :
        (f : StatsRecord fl → Timeval) (r : StatsRecord fl)
        → p r ≡ false
        → total p f (r ∷ live) ≡ total p f live
    unfolding total
    total-cons_other f r e = rw e refl

    tally-cons_other : (r : StatsRecord fl) → p r ≡ false → tally p (r ∷ live) ≡ tally p live
    unfolding tally
    tally-cons_other r e = rw e (omega arith)

    bucket-cons :
        (r : StatsRecord fl) (j : ℕ)
        → p r ≡ true
        → tally (in_bucket p j) (r ∷ live)
          ≡ hit (is_slot (slot_of fl cfg r.req_time) j) + tally (in_bucket p j) live
    unfolding tally
    bucket-cons r j e = rw e refl

    bucket-cons_other :
        (r : StatsRecord fl) (j : ℕ)
        → p r ≡ false
        → tally (in_bucket p j) (r ∷ live) ≡ tally (in_bucket p j) live
    unfolding tally
    bucket-cons_other r j e = rw e (omega arith)

    pub add_to_row-IsRow :
        (r : StatsRecord fl) (d : ReportData fl)
        → p r ≡ true
        → IsTimed r
        → length live < 2 ^ 64 - 1
        → IsRow p live d
        → IsRow p (r ∷ live) (add_to_row fl cfg r d)
    unfolding add_to_row tally
    add_to_row-IsRow r d e t b v = record {
      counted = rw e (omega (arith, v.counted, tally-le-length p live));
      req_time_sum =
          rw (total-cons (λ r. r.req_time) r e)
            (timeradd-SumsTo d.req_time_total r.req_time _ v.req_time_sum t.req_time_normal);
      ru_utime_sum =
          rw (total-cons (λ r. r.ru_utime) r e)
            (timeradd-SumsTo d.ru_utime_total r.ru_utime _ v.ru_utime_sum t.ru_utime_normal);
      ru_stime_sum =
          rw (total-cons (λ r. r.ru_stime) r e)
            (timeradd-SumsTo d.ru_stime_total r.ru_stime _ v.ru_stime_sum t.ru_stime_normal);
      buckets =
          rw e (add-Holds fl cfg d.histogram_data r.req_time _ (λ j. bucket_bound j b) v.buckets);
    }

    pub subtract_from_row-IsRow :
        (r : StatsRecord fl) (d : ReportData fl)
        → p r ≡ true
        → IsTimed r
        → length live < 2 ^ 64 - 1
        → IsRow p (r ∷ live) d
        → IsRow p live (subtract_from_row fl cfg r d)
    unfolding subtract_from_row tally
    subtract_from_row-IsRow r d e t b v = record {
      counted = ground (arith, v.counted, tally-le-length p live);
      req_time_sum =
          timersub-SumsTo d.req_time_total r.req_time _
            (rw (← total-cons (λ r. r.req_time) r e) v.req_time_sum) t.req_time_normal;
      ru_utime_sum =
          timersub-SumsTo d.ru_utime_total r.ru_utime _
            (rw (← total-cons (λ r. r.ru_utime) r e) v.ru_utime_sum) t.ru_utime_normal;
      ru_stime_sum =
          timersub-SumsTo d.ru_stime_total r.ru_stime _
            (rw (← total-cons (λ r. r.ru_stime) r e) v.ru_stime_sum) t.ru_stime_normal;
      buckets =
          remove-Holds fl cfg d.histogram_data r.req_time _ (λ j. bucket_bound j b)
            (record {
              is_map = v.buckets.is_map;
              count_is = λ j. v.buckets.count_is j ∙ bucket-cons r j e;
            });
    }

    -- A record of another group changes nothing for the row.
    pub IsRow-cons_other :
        (r : StatsRecord fl) (d : ReportData fl)
        → p r ≡ false
        → IsRow p live d
        → IsRow p (r ∷ live) d
    IsRow-cons_other r d e v = record {
      counted = rw (tally-cons_other r e) v.counted;
      req_time_sum = rw (total-cons_other (λ r. r.req_time) r e) v.req_time_sum;
      ru_utime_sum = rw (total-cons_other (λ r. r.ru_utime) r e) v.ru_utime_sum;
      ru_stime_sum = rw (total-cons_other (λ r. r.ru_stime) r e) v.ru_stime_sum;
      buckets = record {
        is_map = v.buckets.is_map;
        count_is = λ j. v.buckets.count_is j ∙ sym (bucket-cons_other r j e);
      };
    }

    pub IsRow-uncons_other :
        (r : StatsRecord fl) (d : ReportData fl)
        → p r ≡ false
        → IsRow p (r ∷ live) d
        → IsRow p live d
    IsRow-uncons_other r d e v = record {
      counted = rw (← tally-cons_other r e) v.counted;
      req_time_sum = rw (← total-cons_other (λ r. r.req_time) r e) v.req_time_sum;
      ru_utime_sum = rw (← total-cons_other (λ r. r.ru_utime) r e) v.ru_utime_sum;
      ru_stime_sum = rw (← total-cons_other (λ r. r.ru_stime) r e) v.ru_stime_sum;
      buckets = record {
        is_map = v.buckets.is_map;
        count_is = λ j. v.buckets.count_is j ∙ bucket-cons_other r j e;
      };
    }

    pub RowOk-cons_other :
        (r : StatsRecord fl) (o : Option (ReportData fl))
        → p r ≡ false
        → RowOk p live o
        → RowOk p (r ∷ live) o
    RowOk-cons_other r none e v = rw (tally-cons_other r e) v
    RowOk-cons_other r (some d) e v = (rw (tally-cons_other r e) v.0, IsRow-cons_other r d e v.1)

    pub RowOk-uncons_other :
        (r : StatsRecord fl) (o : Option (ReportData fl))
        → p r ≡ false
        → RowOk p (r ∷ live) o
        → RowOk p live o
    RowOk-uncons_other r none e v = rw (← tally-cons_other r e) v
    RowOk-uncons_other r (some d) e v =
        (rw (← tally-cons_other r e) v.0, IsRow-uncons_other r d e v.1)

  -- The order of the live records does not matter to a row.
  total-snoc_cons :
      (p : StatsRecord fl → Bool) (f : StatsRecord fl → Timeval) (live : List (StatsRecord fl))
      (r : StatsRecord fl)
      → total p f (live ++ r ∷ []) ≡ total p f (r ∷ live)
  unfolding total
  total-snoc_cons p f live r = total-snoc p f live r

  tally-snoc_cons :
      (p : StatsRecord fl → Bool) (live : List (StatsRecord fl)) (r : StatsRecord fl)
      → tally p (live ++ r ∷ []) ≡ tally p (r ∷ live)
  unfolding tally
  tally-snoc_cons p live r = tally-snoc p live r

  pub RowOk-snoc :
      (p : StatsRecord fl → Bool) (live : List (StatsRecord fl)) (r : StatsRecord fl)
      (o : Option (ReportData fl))
      → RowOk p (r ∷ live) o
      → RowOk p (live ++ r ∷ []) o
  RowOk-snoc p live r none v = rw (tally-snoc_cons p live r) v
  RowOk-snoc p live r (some d) v = (
    rw (tally-snoc_cons p live r) v.0,
    record {
      counted = rw (tally-snoc_cons p live r) v.1.counted;
      req_time_sum = rw (total-snoc_cons p (λ r. r.req_time) live r) v.1.req_time_sum;
      ru_utime_sum = rw (total-snoc_cons p (λ r. r.ru_utime) live r) v.1.ru_utime_sum;
      ru_stime_sum = rw (total-snoc_cons p (λ r. r.ru_stime) live r) v.1.ru_stime_sum;
      buckets = record {
        is_map = v.1.buckets.is_map;
        count_is = λ j. v.1.buckets.count_is j ∙ sym (tally-snoc_cons (in_bucket p j) live r);
      };
    },
  )

  -- A new row stands for a group without live records.
  total_of_none :
      (p : StatsRecord fl → Bool) (f : StatsRecord fl → Timeval) (live : List (StatsRecord fl))
      → tally p live ≡ 0
      → total p f live ≡ pos 0
  unfolding tally total
  total_of_none p f [] h = refl
  total_of_none p f (r ∷ live) h = elim (Bool-cases (p r)) [
    | inl e ↦ absurd (ground arith)
    | inr e ↦ rw e (total_of_none p f live (ground arith))
  ]

  bucket_of_none :
      (p : StatsRecord fl → Bool) (j : ℕ) (live : List (StatsRecord fl))
      → tally p live ≡ 0
      → tally (in_bucket p j) live ≡ 0
  unfolding tally
  bucket_of_none p j [] h = refl
  bucket_of_none p j (r ∷ live) h = elim (Bool-cases (p r)) [
    | inl e ↦ absurd (ground arith)
    | inr e ↦ rw e (omega (arith, bucket_of_none p j live (ground arith)))
  ]

  pub new_row-IsRow :
      (p : StatsRecord fl → Bool) (live : List (StatsRecord fl)) (labels : List Label)
      → tally p live ≡ 0
      → IsRow p live (new_row fl cfg labels)
  unfolding new_row histogram_value lmap_get find
  new_row-IsRow p live labels h = record {
    counted = sym h;
    req_time_sum = rw (total_of_none p (λ r. r.req_time) live h) null-SumsTo;
    ru_utime_sum = rw (total_of_none p (λ r. r.ru_utime) live h) null-SumsTo;
    ru_stime_sum = rw (total_of_none p (λ r. r.ru_stime) live h) null-SumsTo;
    buckets = record { is_map = tt; count_is = λ j. sym (bucket_of_none p j live h) };
  }
