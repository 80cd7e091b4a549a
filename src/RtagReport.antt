-- ===== src/RtagReport.antt =====
-- The request tag reports of src/data.cc, which group the requests by the values of their own tags.
-- A report's rows are in a store, and memory for a row is always there.
pub mod Groups
pub mod Window
pub mod Add
pub mod Delete
pub mod Updates
pub mod Slide
use pinba_engine.Common.{
  Bool, Eq, List, Option, add64, eqb_ℤ, if◌then◌else◌, ltb, ltb_ℤ, nat_eq, none, some, string_eq,
  sub64, ℕ, ◌&&◌, ◌==◌, ◌||◌,
}
use pinba_engine.Time.{Timeval, timeradd, timercmp, timersub}
use pinba_engine.Floats.{Floats}
use pinba_engine.Histogram.{HistogramConfig}
use pinba_engine.Record.{StatsRecord}
use pinba_engine.Store.{Store}
use pinba_engine.Report.{Label, ReportData, add_to_row, new_row, subtract_from_row}

-- `pinba_rtag_report`, with the fields of its `std` that the updates touch. The words of its
-- `values` are written before they are read, in every update, and are not kept here.
pub record RtagReport (fl : Floats) (Table : Type 0) : Type 0 where
  pub results : Table
  pub results_cnt : ℕ
  pub start : Timeval
  pub request_pool_start_id : ℕ
  pub time_total : Timeval
  pub ru_utime_total : Timeval
  pub ru_stime_total : Timeval
  pub kbytes_total : fl.Double
  pub memory_footprint : fl.Double

-- `PINBA_REPORT_DELETE_CHECK`
unfoldable pub rtag_predates : {fl : Floats} {T : Type 0} → RtagReport fl T → StatsRecord fl → Bool
rtag_predates report r =
    timercmp (λ x y. ltb_ℤ y x) report.start r.time
    || (timercmp eqb_ℤ report.start r.time && ltb r.counter report.request_pool_start_id)

module _ (fl : Floats) (cfg : HistogramConfig fl) {K : Type 0} ⦃e : Eq K⦄
    (store : Store K (ReportData fl)) where
  open store use {Table, get, put, remove}
  open fl use {plus, minus}

  unfoldable pub rtag_add_totals : StatsRecord fl → RtagReport fl Table → RtagReport fl Table
  rtag_add_totals r report = record report {
    time_total = timeradd report.time_total r.req_time;
    ru_utime_total = timeradd report.ru_utime_total r.ru_utime;
    ru_stime_total = timeradd report.ru_stime_total r.ru_stime;
    kbytes_total = plus report.kbytes_total r.doc_size;
    memory_footprint = plus report.memory_footprint r.memory_footprint;
  }

  unfoldable pub rtag_subtract_totals : StatsRecord fl → RtagReport fl Table → RtagReport fl Table
  rtag_subtract_totals r report = record report {
    time_total = timersub report.time_total r.req_time;
    ru_utime_total = timersub report.ru_utime_total r.ru_utime;
    ru_stime_total = timersub report.ru_stime_total r.ru_stime;
    kbytes_total = minus report.kbytes_total r.doc_size;
    memory_footprint = minus report.memory_footprint r.memory_footprint;
  }

  -- The row of the index, or a new one.
  abbrev pub row_or_new : List Label → Option (ReportData fl) → ReportData fl
  row_or_new labels none = new_row fl cfg labels
  row_or_new labels (some data_row) = data_row

  unfoldable pub rtag_add_at :
      List Label → StatsRecord fl → K → RtagReport fl Table → RtagReport fl Table
  unfolding rtag_add_totals
  rtag_add_at labels r k report = record (rtag_add_totals r report) {
    results = put report.results k (add_to_row fl cfg r (row_or_new labels (get report.results k)));
    results_cnt = elim (get report.results k) [
      | none ↦ add64 report.results_cnt 1
      | some data_row ↦ report.results_cnt
    ];
  }

  -- The request is uncounted first, and with the last one the row goes.
  unfoldable pub rtag_delete_at :
      StatsRecord fl → K → RtagReport fl Table → Option (ReportData fl) → RtagReport fl Table
  unfolding rtag_subtract_totals
  rtag_delete_at r k report none = report
  rtag_delete_at r k report (some data_row) =
      if (sub64 data_row.req_count 1) == 0
      then record (rtag_subtract_totals r report) {
        results = remove report.results k;
        results_cnt = sub64 report.results_cnt 1;
      }
      else record (rtag_subtract_totals r report) {
        results = put report.results k (subtract_from_row fl cfg r data_row);
      }

  module _ (key_of : StatsRecord fl → Option K) (labels_of : StatsRecord fl → List Label) where
    unfoldable pub rtag_add : StatsRecord fl → RtagReport fl Table → RtagReport fl Table
    unfolding rtag_add_at
    rtag_add r report = elim (key_of r) [
      | none ↦ report
      | some k ↦ rtag_add_at (labels_of r) r k report
    ]

    unfoldable pub rtag_delete : StatsRecord fl → RtagReport fl Table → RtagReport fl Table
    unfolding rtag_delete_at
    rtag_delete r report = if rtag_predates report r then report else elim (key_of r) [
      | none ↦ report
      | some k ↦ rtag_delete_at r k report (get report.results k)
    ]
