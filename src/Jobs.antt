-- ===== src/Jobs.antt =====
-- `update_reports_func` of src/pool.cc: the job that brings one report up to date with a run of
-- records of the request pool. Its report is a base report with an index; locks, metrics, the
-- resource usage and `time_interval` are left out.
pub mod Window
use pinba_engine.Common.{
  Bool, Option, add64, eqb_ℤ, get_elem?, if◌then◌else◌, leb, nat_eq, none, pos, some, string_eq,
  suc, zero, ℕ, ◌-◌,
}
use pinba_engine.Time.{}
use pinba_engine.Floats.{Floats}
use pinba_engine.Histogram.{HistogramConfig}
use pinba_engine.Record.{StatsRecord}
use pinba_engine.Conditions.{Conditions, conditions_hold}
use pinba_engine.Pool.{Pool, next_id}
use pinba_engine.Report.{Report}
use pinba_engine.Report.Updates.{BaseReport, add_func, delete_func}

-- `reports_job_data`, without the report.
pub record ReportsJob : Type 0 where
  pub prefix : ℕ
  pub count : ℕ
  pub add : Bool

-- The part of `pinba_std_report` that the job reads, and the report.
pub record StdReport (fl : Floats) : Type 0 where
  pub flags : ℕ
  pub cond : Conditions fl
  pub packets_cnt : ℕ
  pub report : Report fl

module _ (fl : Floats) (cfg : HistogramConfig fl) (t : BaseReport) where
  -- The loop over `count` records from `tmp_id` on. A read past the array is skipped.
  unfoldable pub update_loop :
      (StatsRecord fl → Bool)
      → (StatsRecord fl → Report fl → Report fl)
      → Pool (StatsRecord fl)
      → ℕ
      → ℕ
      → Report fl
      → Report fl
  update_loop matches func pool zero tmp_id report = report
  update_loop matches func pool (suc count) tmp_id report =
      update_loop matches func pool count (next_id pool.size tmp_id)
        (elim (get_elem? pool.items tmp_id) [
          | none ↦ report
          | some r ↦ if matches r then func r report else report
        ])

  -- The first record that a report takes part in is its start.
  unfoldable pub mark_start : Option (StatsRecord fl) → Report fl → Report fl
  mark_start none report = report
  mark_start (some r) report =
      if eqb_ℤ report.start.tv_sec (pos 0)
      then record report { start = r.time; request_pool_start_id = r.counter }
      else report

  unfoldable pub update_reports : ReportsJob → Pool (StatsRecord fl) → StdReport fl → StdReport fl
  unfolding update_loop mark_start
  update_reports d pool std =
      let tmp_id = if leb pool.size d.prefix then d.prefix - pool.size else d.prefix in
      let matches = conditions_hold fl std.flags std.cond in
      if d.add
      then record std {
        report =
            update_loop matches (add_func fl cfg t) pool d.count tmp_id
              (mark_start (get_elem? pool.items tmp_id) std.report);
        packets_cnt = add64 std.packets_cnt d.count;
      }
      else record std {
        report = update_loop matches (delete_func fl cfg t) pool d.count tmp_id std.report;
      }
