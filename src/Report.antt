-- ===== src/Report.antt =====
-- The base reports: src/pinba_update_report_tpl.h, from which src/pinba_update_report.h is made,
-- and the structures of src/pinba_types.h that it updates. Memory for a row is always there, as
-- the code assumes. The results of a report are reached through its map alone, so that a row
-- which is changed through its pointer is an entry of the map that is stored again.
pub mod Groups
pub mod Updates
pub mod Sums
pub mod Spec
pub mod Added
pub mod Rows
pub mod Info
pub mod Window
use pinba_engine.Common.{
  Bool, CString, List, Option, add64, eqb_ℤ, if◌then◌else◌, ltb, ltb_ℤ, nat_eq, negsuc, none, pos,
  some, string_eq, sub64, true, ℕ, ◌&&◌, ◌==◌, ◌||◌,
}
use pinba_engine.Time.{Timeval, null_timeval, timeradd, timercmp, timersub}
use pinba_engine.Floats.{Floats}
use pinba_engine.Lmap.{Lmap, lmap_create}
use pinba_engine.Map.{Map, map_add, map_delete, map_get}
use pinba_engine.Histogram.{HistogramConfig, update_histogram}
use pinba_engine.Record.{StatsRecord}

-- The columns that a row copies from the first record of its group.
pub data Label : Type 0 where
  script_label server_label host_label schema_label tag_label : CString → Label
  status_label : ℕ → Label

-- `pinba_report1_data` to `pinba_report18_data`, which differ in the labels only.
pub record ReportData (fl : Floats) : Type 0 where
  pub histogram_data : Lmap ℕ
  pub req_count : ℕ
  pub req_time_total : Timeval
  pub ru_utime_total : Timeval
  pub ru_stime_total : Timeval
  pub kbytes_total : fl.Double
  pub memory_footprint : fl.Double
  pub labels : List Label

-- `pinba_report`, with the fields of its `std` that the updates touch.
pub record Report (fl : Floats) : Type 0 where
  pub results : Map (ReportData fl)
  pub results_cnt : ℕ
  pub std_histogram : Lmap ℕ
  pub start : Timeval
  pub request_pool_start_id : ℕ
  pub time_total : Timeval
  pub ru_utime_total : Timeval
  pub ru_stime_total : Timeval
  pub kbytes_total : fl.Double
  pub memory_footprint : fl.Double

-- `PINBA_REPORT_DELETE_CHECK`: the record is older than the report.
unfoldable pub predates : {fl : Floats} → Report fl → StatsRecord fl → Bool
predates report r =
    timercmp (λ x y. ltb_ℤ y x) report.start r.time
    || (timercmp eqb_ℤ report.start r.time && ltb r.counter report.request_pool_start_id)

module _ (fl : Floats) (cfg : HistogramConfig fl) where
  open fl use {plus, minus, of_int}

  -- The sums over all rows.
  unfoldable pub add_totals : StatsRecord fl → Report fl → Report fl
  add_totals r report = record report {
    time_total = timeradd report.time_total r.req_time;
    ru_utime_total = timeradd report.ru_utime_total r.ru_utime;
    ru_stime_total = timeradd report.ru_stime_total r.ru_stime;
    kbytes_total = plus report.kbytes_total r.doc_size;
    memory_footprint = plus report.memory_footprint r.memory_footprint;
  }

  unfoldable pub subtract_totals : StatsRecord fl → Report fl → Report fl
  subtract_totals r report = record report {
    time_total = timersub report.time_total r.req_time;
    ru_utime_total = timersub report.ru_utime_total r.ru_utime;
    ru_stime_total = timersub report.ru_stime_total r.ru_stime;
    kbytes_total = minus report.kbytes_total r.doc_size;
    memory_footprint = minus report.memory_footprint r.memory_footprint;
  }

  -- A row as `calloc` and `PINBA_REPORT_ASSIGN_DATA` leave it.
  unfoldable pub new_row : List Label → ReportData fl
  unfolding lmap_create
  new_row labels = record {
    histogram_data = lmap_create;
    req_count = 0;
    req_time_total = null_timeval;
    ru_utime_total = null_timeval;
    ru_stime_total = null_timeval;
    kbytes_total = of_int (pos 0);
    memory_footprint = of_int (pos 0);
    labels = labels;
  }

  unfoldable pub add_to_row : StatsRecord fl → ReportData fl → ReportData fl
  add_to_row r data_row = record data_row {
    req_count = add64 data_row.req_count 1;
    req_time_total = timeradd data_row.req_time_total r.req_time;
    ru_utime_total = timeradd data_row.ru_utime_total r.ru_utime;
    ru_stime_total = timeradd data_row.ru_stime_total r.ru_stime;
    kbytes_total = plus data_row.kbytes_total r.doc_size;
    memory_footprint = plus data_row.memory_footprint r.memory_footprint;
    histogram_data = update_histogram fl cfg data_row.histogram_data r.req_time (pos 1);
  }

  unfoldable pub subtract_from_row : StatsRecord fl → ReportData fl → ReportData fl
  subtract_from_row r data_row = record data_row {
    req_count = sub64 data_row.req_count 1;
    req_time_total = timersub data_row.req_time_total r.req_time;
    ru_utime_total = timersub data_row.ru_utime_total r.ru_utime;
    ru_stime_total = timersub data_row.ru_stime_total r.ru_stime;
    kbytes_total = minus data_row.kbytes_total r.doc_size;
    memory_footprint = minus data_row.memory_footprint r.memory_footprint;
    histogram_data = update_histogram fl cfg data_row.histogram_data r.req_time (negsuc 0);
  }

  -- `pinba_update_report_info_add` and its counterpart: one row, the report itself.
  unfoldable pub update_report_info_add : StatsRecord fl → Report fl → Report fl
  unfolding add_totals
  update_report_info_add r report = record (add_totals r report) {
    results_cnt = add64 report.results_cnt 1;
    std_histogram = update_histogram fl cfg report.std_histogram r.req_time (pos 1);
  }

  unfoldable pub update_report_info_delete : StatsRecord fl → Report fl → Report fl
  unfolding subtract_totals
  update_report_info_delete r report =
      if report.results_cnt == 0
      then report
      else if predates report r
      then report
      else record (subtract_totals r report) {
        results_cnt = sub64 report.results_cnt 1;
        std_histogram = update_histogram fl cfg report.std_histogram r.req_time (negsuc 0);
      }

  -- The reports with an index, by the functions that build the index and the labels.
  module _ (index : StatsRecord fl → CString) (labels : StatsRecord fl → List Label) where
    unfoldable pub add_row : StatsRecord fl → Report fl → Option (ReportData fl) → Report fl
    unfolding add_totals new_row
    add_row r report none = record (add_totals r report) {
      results = map_add true report.results (index r) (add_to_row r (new_row (labels r)));
      results_cnt = add64 report.results_cnt 1;
    }
    add_row r report (some data_row) = record (add_totals r report) {
      results = map_add true report.results (index r) (add_to_row r data_row);
    }

    unfoldable pub update_add : StatsRecord fl → Report fl → Report fl
    unfolding add_row
    update_add r report = add_row r report (map_get report.results (index r))

    unfoldable pub delete_row : StatsRecord fl → Report fl → Option (ReportData fl) → Report fl
    unfolding subtract_totals
    delete_row r report none = subtract_totals r report
    delete_row r report (some data_row) =
        if data_row.req_count == 1
        then record (subtract_totals r report) {
          results = (map_delete report.results (index r)).1;
          results_cnt = sub64 report.results_cnt 1;
        }
        else record (subtract_totals r report) {
          results = map_add true report.results (index r) (subtract_from_row r data_row);
        }

    unfoldable pub update_delete : StatsRecord fl → Report fl → Report fl
    unfolding delete_row
    update_delete r report =
        if report.results_cnt == 0
        then report
        else if predates report r
        then report
        else delete_row r report (map_get report.results (index r))
