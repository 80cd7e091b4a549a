-- ===== src/Jobs/Window.antt =====
-- A job of src/pool.cc moves the window of its report.
use pinba_engine.Common.{
  All, Bool, Bool-cases, List, Option, Option-cases, [], arith, eqb_ℤ, false, get_elem?,
  if◌then◌else◌, inl, inr, leb, length, nat_eq, none, pos, refl, select, some, string_eq, suc, true,
  zero, ℕ, ◌++◌, ◌+◌, ◌-◌, ◌<◌, ◌^◌, ◌∷◌, ◌≡◌, ◌≤◌,
}
use pinba_engine.Time.{}
use pinba_engine.Floats.{Floats}
use pinba_engine.Map.{}
use pinba_engine.Histogram.{HistogramConfig}
use pinba_engine.Record.{IsTimed, StatsRecord}
use pinba_engine.Conditions.{conditions_hold}
use pinba_engine.Pool.{Pool, next_id}
use pinba_engine.Report.{Report, predates}
use pinba_engine.Report.Updates.{BaseReport, add_func, delete_func}
use pinba_engine.Report.Rows.{}
use pinba_engine.Report.Window.{}
use pinba_engine.Report.Window.Slide.{
  TracksReport, apply_batch, apply_batch-add, apply_batch-delete,
}
use pinba_engine.Jobs.{ReportsJob, StdReport, mark_start, update_loop, update_reports}

abbrev keep_item : {A : Type 0} → Option A → List A → List A
keep_item none rs = rs
keep_item (some r) rs = r ∷ rs

-- The `count` items of a ring from `id` on.
unfoldable pub visited : {A : Type 0} → Pool A → ℕ → ℕ → List A
visited pool zero id = []
visited pool (suc count) id =
    keep_item (get_elem? pool.items id) (visited pool count (next_id pool.size id))

pub length-visited-le :
    {A : Type 0} (pool : Pool A) (count id : ℕ) → length (visited pool count id) ≤ count
unfolding visited
length-visited-le pool zero id = omega arith
length-visited-le pool (suc count) id =
    ground (arith, length-visited-le pool count (next_id pool.size id))

module _ (fl : Floats) (cfg : HistogramConfig fl) (t : BaseReport) where
  update_loop-visited :
      (matches : StatsRecord fl → Bool) (func : StatsRecord fl → Report fl → Report fl)
      (pool : Pool (StatsRecord fl)) (count id : ℕ) (report : Report fl)
      → update_loop fl cfg t matches func pool count id report
        ≡ apply_batch matches func (visited pool count id) report
  unfolding update_loop visited apply_batch
  update_loop-visited matches func pool zero id report = refl
  update_loop-visited matches func pool (suc count) id report =
      elim (Option-cases (get_elem? pool.items id)) [
        | inl e ↦ rw e (update_loop-visited matches func pool count (next_id pool.size id) report)
        | inr (r, e) ↦ rw e (
            update_loop-visited matches func pool count (next_id pool.size id)
              (if matches r then func r report else report))
      ]

  abbrev pub first_id : ReportsJob → Pool (StatsRecord fl) → ℕ
  first_id d pool = if leb pool.size d.prefix then d.prefix - pool.size else d.prefix

  -- Setting the start does not touch the rows.
  mark_start-Tracks :
      (live : List (StatsRecord fl)) (o : Option (StatsRecord fl)) (report : Report fl)
      → TracksReport fl cfg t live report
      → TracksReport fl cfg t live (mark_start fl cfg t o report)
  unfolding mark_start
  mark_start-Tracks live none report v = v
  mark_start-Tracks live (some r) report v = elim (Bool-cases (eqb_ℤ report.start.tv_sec (pos 0))) [
    | inl unset ↦ rw unset (record {
      rows = v.rows;
      is_map = v.is_map;
      rows_counted = v.rows_counted;
      records_counted = v.records_counted;
      time_sum = v.time_sum;
      ru_utime_sum = v.ru_utime_sum;
      ru_stime_sum = v.ru_stime_sum;
    })
    | inr set_before ↦ rw set_before v
  ]

  -- An adding job takes a report that tracks the live records to one that tracks them and, after
  -- them, the records of its run that meet the report's conditions, if the times of the run are
  -- normal and there are fewer than 2^64 records together.
  pub update_reports-add :
      (live : List (StatsRecord fl)) (d : ReportsJob) (pool : Pool (StatsRecord fl))
      (std : StdReport fl)
      → d.add ≡ true
      → TracksReport fl cfg t live std.report
      → All IsTimed (visited pool d.count (first_id d pool))
      → length live + d.count < 2 ^ 64
      → TracksReport fl cfg t
          (live
            ++ select
                (conditions_hold fl std.flags std.cond)
                (visited pool d.count (first_id d pool)))
          (update_reports fl cfg t d pool std).report
  unfolding update_reports
  update_reports-add live d pool std adds v timed b =
      rw
        (
          adds,
          update_loop-visited (conditions_hold fl std.flags std.cond) (add_func fl cfg t) pool
              d.count (first_id d pool)
              (mark_start fl cfg t (get_elem? pool.items (first_id d pool)) std.report),
        )
        (apply_batch-add fl cfg t (conditions_hold fl std.flags std.cond) live
          (visited pool d.count (first_id d pool)) _
          (mark_start-Tracks live (get_elem? pool.items (first_id d pool)) std.report v) timed
          (omega (arith, length-visited-le pool d.count (first_id d pool))))

  -- A deleting job takes a report that tracks the matching records of its run and the live records
  -- after them to one that tracks the live records alone, if the times of the run are normal, none
  -- of its records is older than the report, and there are fewer than 2^64 records together.
  pub update_reports-delete :
      (live : List (StatsRecord fl)) (d : ReportsJob) (pool : Pool (StatsRecord fl))
      (std : StdReport fl)
      → d.add ≡ false
      → TracksReport fl cfg t
          (select (conditions_hold fl std.flags std.cond) (visited pool d.count (first_id d pool))
            ++ live)
          std.report
      → All IsTimed (visited pool d.count (first_id d pool))
      → All (λ r. predates std.report r ≡ false) (visited pool d.count (first_id d pool))
      → length live + d.count < 2 ^ 64
      → TracksReport fl cfg t live (update_reports fl cfg t d pool std).report
  unfolding update_reports
  update_reports-delete live d pool std deletes v timed old b =
      rw
        (
          deletes,
          update_loop-visited (conditions_hold fl std.flags std.cond) (delete_func fl cfg t) pool
              d.count (first_id d pool) std.report,
        )
        (apply_batch-delete fl cfg t (conditions_hold fl std.flags std.cond)
          (visited pool d.count (first_id d pool)) live std.report v timed old
          (omega (arith, length-visited-le pool d.count (first_id d pool))))
