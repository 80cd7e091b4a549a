-- ===== src/Report/Window/Slide.antt =====
-- Batches of records that enter and leave a report, with the report's conditions applied.
use pinba_engine.Common.{
  All, Bool, Bool-cases, List, [], append-nil, append_assoc, arith, false, if◌then◌else◌, inl, inr,
  length, length-append, length-select-le, nat_eq, select, string_eq, ◌++◌, ◌+◌, ◌-◌, ◌<◌, ◌^◌, ◌∙◌,
  ◌∷◌, ◌≡◌,
}
use pinba_engine.Time.{Timeval}
use pinba_engine.Floats.{Floats}
use pinba_engine.Lmap.{}
use pinba_engine.Map.{map_get}
use pinba_engine.Histogram.{HistogramConfig}
use pinba_engine.Record.{IsTimed, StatsRecord}
use pinba_engine.Report.Sums.{}
use pinba_engine.Report.Spec.{total, total-snoc}
use pinba_engine.Report.Rows.{RowOk-snoc}
use pinba_engine.Report.Window.{Tracks, everyone, in_group}
use pinba_engine.Report.Window.Add.{update_add-Tracks}
use pinba_engine.Report.Window.Delete.{start-update_delete, update_delete-Tracks}
use pinba_engine.Report.{Report, predates}
use pinba_engine.Report.Updates.{
  BaseReport, add_func, add_func-update_add, delete_func, delete_func-update_delete, index_of,
  labels_of,
}

-- `func` on the records that `matches` takes, in order.
unfoldable pub apply_batch :
    {fl : Floats}
    → (StatsRecord fl → Bool)
    → (StatsRecord fl → Report fl → Report fl)
    → List (StatsRecord fl)
    → Report fl
    → Report fl
apply_batch matches func [] report = report
apply_batch matches func (r ∷ rs) report =
    apply_batch matches func rs (if matches r then func r report else report)

module _ (fl : Floats) (cfg : HistogramConfig fl) (t : BaseReport) where
  -- The report of type `t` says of the live records what it should.
  abbrev pub TracksReport : List (StatsRecord fl) → Report fl → Type 0
  TracksReport = Tracks fl cfg (index_of fl cfg t)

  total-rotate :
      (f : StatsRecord fl → Timeval) (live : List (StatsRecord fl)) (r : StatsRecord fl)
      → total everyone f (live ++ r ∷ []) ≡ total everyone f (r ∷ live)
  unfolding total
  total-rotate f live r = total-snoc everyone f live r

  -- The window is a queue, but the report does not depend on the order.
  Tracks-rotate :
      (live : List (StatsRecord fl)) (report : Report fl) (r : StatsRecord fl)
      → TracksReport (r ∷ live) report
      → TracksReport (live ++ r ∷ []) report
  Tracks-rotate live report r v = record {
    rows = λ k.
        RowOk-snoc fl cfg (in_group fl cfg (index_of fl cfg t) k) live r (map_get report.results k)
          (v.rows k);
    is_map = v.is_map;
    rows_counted = v.rows_counted;
    records_counted = v.records_counted ∙ omega (arith, length-append live (r ∷ []));
    time_sum = rw (total-rotate (λ r. r.req_time) live r) v.time_sum;
    ru_utime_sum = rw (total-rotate (λ r. r.ru_utime) live r) v.ru_utime_sum;
    ru_stime_sum = rw (total-rotate (λ r. r.ru_stime) live r) v.ru_stime_sum;
  }

  add_func-Tracks :
      (live : List (StatsRecord fl)) (report : Report fl) (r : StatsRecord fl)
      → TracksReport live report
      → IsTimed r
      → length live < 2 ^ 64 - 1
      → TracksReport (live ++ r ∷ []) (add_func fl cfg t r report)
  add_func-Tracks live report r v timed b = rw (add_func-update_add fl cfg t) (
      Tracks-rotate live _ r
        (update_add-Tracks fl cfg (index_of fl cfg t) (labels_of fl cfg t) live report r v timed b))

  delete_func-Tracks :
      (live : List (StatsRecord fl)) (report : Report fl) (r : StatsRecord fl)
      → TracksReport (r ∷ live) report
      → IsTimed r
      → length live < 2 ^ 64 - 1
      → predates report r ≡ false
      → TracksReport live (delete_func fl cfg t r report)
  delete_func-Tracks live report r v timed b old = rw (delete_func-update_delete fl cfg t) (
      update_delete-Tracks fl cfg (index_of fl cfg t) (labels_of fl cfg t) live report r v timed b
        old)

  module _ (matches : StatsRecord fl → Bool) where
    -- New records enter at the end of the window.
    pub apply_batch-add :
        (live batch : List (StatsRecord fl)) (report : Report fl)
        → TracksReport live report
        → All IsTimed batch
        → length live + length batch < 2 ^ 64
        → TracksReport
            (live ++ select matches batch)
            (apply_batch matches (add_func fl cfg t) batch report)
    unfolding apply_batch
    apply_batch-add live [] report v timed b = rw append-nil v
    apply_batch-add live (r ∷ batch) report v timed b = elim (Bool-cases (matches r)) [
      | inl yes_it_does ↦
          rw (yes_it_does, ← append_assoc live (r ∷ []) (select matches batch))
            (apply_batch-add (live ++ r ∷ []) batch (add_func fl cfg t r report)
              (add_func-Tracks live report r v timed.0 (omega arith)) timed.1
              (omega (arith, length-append live (r ∷ []))))
      | inr no_match ↦ rw no_match (apply_batch-add live batch report v timed.1 (omega arith))
    ]

  start-delete_func :
      (report : Report fl) (r q : StatsRecord fl)
      → predates (delete_func fl cfg t r report) q ≡ predates report q
  start-delete_func report r q =
      rw (delete_func-update_delete fl cfg t)
        (start-update_delete fl cfg (index_of fl cfg t) (labels_of fl cfg t) report r q)

  module _ (matches : StatsRecord fl → Bool) where
    predates-delete :
        (report : Report fl) (r : StatsRecord fl) (rs : List (StatsRecord fl))
        → All (λ q. predates report q ≡ false) rs
        → All (λ q. predates (delete_func fl cfg t r report) q ≡ false) rs
    predates-delete report r [] h = tt
    predates-delete report r (q ∷ rs) h =
        (start-delete_func report r q ∙ h.0, predates-delete report r rs h.1)

    -- Old records leave from its front.
    pub apply_batch-delete :
        (batch live : List (StatsRecord fl)) (report : Report fl)
        → TracksReport (select matches batch ++ live) report
        → All IsTimed batch
        → All (λ r. predates report r ≡ false) batch
        → length batch + length live < 2 ^ 64
        → TracksReport live (apply_batch matches (delete_func fl cfg t) batch report)
    unfolding apply_batch
    apply_batch-delete [] live report v timed old b = v
    apply_batch-delete (r ∷ batch) live report v timed old b = elim (Bool-cases (matches r)) [
      | inl yes_it_does ↦ rw yes_it_does (
          apply_batch-delete batch live (delete_func fl cfg t r report)
            (delete_func-Tracks (select matches batch ++ live) report r (rw yes_it_does at v)
              timed.0
              (omega
                (arith, length-append (select matches batch) live, length-select-le matches batch))
              old.0)
            timed.1 (predates-delete report r batch old.1) (omega arith))
      | inr no_match ↦
          rw no_match
            (apply_batch-delete batch live report (rw no_match at v) timed.1 old.1 (omega arith))
    ]
