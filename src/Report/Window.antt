-- ===== src/Report/Window.antt =====
-- A report over the sliding window of live records: src/pinba_update_report_tpl.h as
-- `update_reports_func` of src/pool.cc calls it, adding new records at the end of the window and
-- removing old ones from its front.
pub mod Add
pub mod Delete
pub mod Slide
use pinba_engine.Common.{
  Bool, CString, List, Option, [], arith, find, length, length-le-weigh, nat_eq, none, some, str_eq,
  string_eq, true, weigh, weigh-assign, weigh-erase, weight_of, ℕ, ◌+◌, ◌<◌, ◌≡◌, ◌≤◌,
}
use pinba_engine.Time.{}
use pinba_engine.Floats.{Floats}
use pinba_engine.Lmap.{}
use pinba_engine.Map.{IsMap, Map, map_add, map_count, map_delete, map_get}
use pinba_engine.Histogram.{HistogramConfig}
use pinba_engine.Record.{StatsRecord}
use pinba_engine.Report.Sums.{SumsTo}
use pinba_engine.Report.Spec.{tally-le-length, total}
use pinba_engine.Report.Rows.{RowOk}
use pinba_engine.Report.{Label, Report, ReportData}

-- The number of records that the rows hold together.
unfoldable pub req_sum : {fl : Floats} → Map (ReportData fl) → ℕ
req_sum none = 0
req_sum (some m) = weigh (λ d. d.req_count) m

abbrev pub everyone : {fl : Floats} → StatsRecord fl → Bool
everyone r = true

module _ (fl : Floats) (cfg : HistogramConfig fl) (index : StatsRecord fl → CString) where
  abbrev pub in_group : CString → StatsRecord fl → Bool
  in_group k r = str_eq (index r) k

  -- The report says of every group what the live records of that group add up to, has a row for
  -- the groups with live records and for no other, and counts its rows.
  pub record Tracks (live : List (StatsRecord fl)) (report : Report fl) : Type 0 where
    pub rows : (k : CString) → RowOk fl cfg (in_group k) live (map_get report.results k)
    pub is_map : IsMap report.results
    pub rows_counted : report.results_cnt ≡ map_count report.results
    pub records_counted : req_sum report.results ≡ length live
    pub time_sum : SumsTo report.time_total (total everyone (λ r. r.req_time) live)
    pub ru_utime_sum : SumsTo report.ru_utime_total (total everyone (λ r. r.ru_utime) live)
    pub ru_stime_sum : SumsTo report.ru_stime_total (total everyone (λ r. r.ru_stime) live)

module _ {fl : Floats} where
  pub req_sum-add :
      (m : Map (ReportData fl)) (k : CString) (d : ReportData fl)
      → req_sum (map_add true m k d) + weight_of (λ d. d.req_count) (map_get m k)
        ≡ req_sum m + d.req_count
  unfolding req_sum map_add map_get find weigh
  req_sum-add none k d =
      omega (arith, weigh-assign {K = CString} (λ (d : ReportData fl). d.req_count) k d [])
  req_sum-add (some m) k d = ground (arith, weigh-assign (λ (d : ReportData fl). d.req_count) k d m)

  pub req_sum-delete :
      (m : Map (ReportData fl)) (k : CString)
      → req_sum (map_delete m k).1 + weight_of (λ d. d.req_count) (map_get m k) ≡ req_sum m
  unfolding req_sum map_delete map_get
  req_sum-delete none k = omega arith
  req_sum-delete (some m) k = weigh-erase (λ (d : ReportData fl). d.req_count) k m

  pub map_count-le-req_sum :
      (m : Map (ReportData fl))
      → IsMap m
      → ((k : CString) (d : ReportData fl) → map_get m k ≡ some d → 0 < d.req_count)
      → map_count m ≤ req_sum m
  unfolding req_sum map_count map_get
  map_count-le-req_sum none v h = omega arith
  map_count-le-req_sum (some m) v h = length-le-weigh (λ (d : ReportData fl). d.req_count) m v h

module _ (fl : Floats) (cfg : HistogramConfig fl) (index : StatsRecord fl → CString) where
  pub row_not_empty :
      (live : List (StatsRecord fl)) (report : Report fl)
      → Tracks fl cfg index live report
      → (k : CString) (d : ReportData fl) → map_get report.results k ≡ some d
      → 0 < d.req_count
  row_not_empty live report v k d e =
      let row : RowOk fl cfg (in_group fl cfg index k) live (some d) = rw e at (v.rows k) in
      omega (arith, row.0, row.1.counted)

  -- A report that tracks the live records has no more rows than there are live records.
  pub results_cnt-le :
      (live : List (StatsRecord fl)) (report : Report fl)
      → Tracks fl cfg index live report
      → report.results_cnt ≤ length live
  results_cnt-le live report v = omega (
    arith,
    v.rows_counted,
    v.records_counted,
    map_count-le-req_sum report.results v.is_map (row_not_empty live report v),
  )

  pub old_count_le :
      (live : List (StatsRecord fl)) (k : CString) (o : Option (ReportData fl))
      → RowOk fl cfg (in_group fl cfg index k) live o
      → weight_of (λ d. d.req_count) o ≤ length live
  old_count_le live k none row = omega arith
  old_count_le live k (some d) row =
      omega (arith, row.1.counted, tally-le-length (in_group fl cfg index k) live)
