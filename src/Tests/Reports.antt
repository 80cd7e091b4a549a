-- ===== src/Tests/Reports.antt =====
-- A report by script over two records, with times in whole seconds.
use pinba_engine.Common.{
  CString, List, [], arith, assign, false, find, length, nat_eq, none, pos, refl, select, str_eq,
  string_eq, true, ℕ, ◌++◌, ◌<◌, ◌∷◌, ◌≡◌,
}
use pinba_engine.Time.{IsNormal, Timeval, null_timeval, timercmp}
use pinba_engine.Floats.{whole_numbers}
use pinba_engine.Histogram.{HistogramConfig, histogram_value}
use pinba_engine.Record.{IsTimed, StatsRecord}
use pinba_engine.Conditions.{conditions_hold, has_flag}
use pinba_engine.Lmap.{lmap_get}
use pinba_engine.Map.{map_add, map_count, map_get}
use pinba_engine.Report.{
  Label, Report, predates, update_add, update_delete, update_report_info_add,
  update_report_info_delete,
}
use pinba_engine.Report.Spec.{tally, total}
use pinba_engine.Report.Sums.{null-SumsTo}
use pinba_engine.Report.Groups.{report1_index, report4_index, report5_index, report6_index}
use pinba_engine.Report.Groups.Keys.{IsStored, joined_reports-separate}
use pinba_engine.Report.Updates.{report1, add_func, index_of, labels_of, update_report1_add}
use pinba_engine.Report.Info.{
  Summarises, update_report_info_add-Summarises, update_report_info_delete-Summarises,
}
use pinba_engine.Report.Rows.{}
use pinba_engine.Histogram.Counts.{}
use pinba_engine.Report.Window.{Tracks, req_sum}
use pinba_engine.Report.Window.Add.{Added, update_add-Added, update_add-Tracks}
use pinba_engine.Report.Window.Delete.{update_delete-Tracks}
use pinba_engine.Report.Window.Slide.{TracksReport}
use pinba_engine.Pool.{Pool, next_id}
use pinba_engine.Jobs.{ReportsJob, StdReport, mark_start, update_reports}
use pinba_engine.Jobs.Window.{first_id, update_reports-add, update_reports-delete, visited}

abbrev pub seconds : ℕ → Timeval
seconds n = record { tv_sec = pos n; tv_usec = pos 0 }

pub seconds-IsNormal : (n : ℕ) → IsNormal (seconds n)
seconds-IsNormal n = record { nonneg = omega arith; below = omega arith }

abbrev pub config : HistogramConfig whole_numbers
config = record { histogram_max_time = pos 60; histogram_segment = pos 1; histogram_size = 512 }

abbrev pub request : CString → ℕ → ℕ → StatsRecord whole_numbers
request script counter time = record {
  script_name = script;
  server_name = b'w' ∷ [];
  hostname = b'h' ∷ [];
  schema = [];
  req_time = seconds time;
  ru_utime = seconds 1;
  ru_stime = seconds 0;
  doc_size = pos 10;
  mem_peak_usage = pos 1;
  memory_footprint = pos 1;
  tags = [];
  req_count = 1;
  status = 200;
  time = seconds 100;
  timers_start = 0;
  counter = counter;
  timers_cnt = 0;
  active = true;
  dictionary_words = [];
}

abbrev pub first : StatsRecord whole_numbers
first = request (b'a' ∷ []) 7 3

abbrev second : StatsRecord whole_numbers
second = request (b'b' ∷ []) 8 5

pub timed : (script : CString) (counter time : ℕ) → IsTimed (request script counter time)
timed script counter time = record {
  req_time_normal = seconds-IsNormal time;
  ru_utime_normal = seconds-IsNormal 1;
  ru_stime_normal = seconds-IsNormal 0;
}

abbrev empty_report : Report whole_numbers
empty_report = record {
  results = none;
  results_cnt = 0;
  std_histogram = none;
  start = null_timeval;
  request_pool_start_id = 0;
  time_total = null_timeval;
  ru_utime_total = null_timeval;
  ru_stime_total = null_timeval;
  kbytes_total = pos 0;
  memory_footprint = pos 0;
}

empty_report-Tracks : TracksReport whole_numbers config report1 [] empty_report
unfolding map_get map_count req_sum tally total
empty_report-Tracks = record {
  rows = λ k. refl;
  is_map = tt;
  rows_counted = refl;
  records_counted = refl;
  time_sum = null-SumsTo;
  ru_utime_sum = null-SumsTo;
  ru_stime_sum = null-SumsTo;
}

abbrev ring : Pool (StatsRecord whole_numbers)
ring = record {
  size = 4;
  limit_size = 0;
  grow_size = 4;
  element_size = 1;
  in_index = 2;
  out_index = 0;
  name = [];
  items = first ∷ second ∷ first ∷ first ∷ [];
}

abbrev std_report : StdReport whole_numbers
std_report = record {
  flags = 0;
  cond = record { min_time = pos 0; max_time = pos 0; cond_tags = [] };
  packets_cnt = 0;
  report = empty_report;
}

abbrev adding : ReportsJob
adding = record { prefix = 0; count = 2; add = true }

abbrev two_added : Report whole_numbers
two_added = (update_reports whole_numbers config report1 adding ring std_report).report

update_reports-add_example :
    TracksReport whole_numbers config report1
      ([]
        ++ select
            (conditions_hold whole_numbers 0 std_report.cond)
            (visited ring 2 (first_id whole_numbers config report1 adding ring)))
      two_added
unfolding visited next_id
update_reports-add_example =
    update_reports-add whole_numbers config report1 [] adding ring std_report refl
      empty_report-Tracks (timed (b'a' ∷ []) 7 3, (timed (b'b' ∷ []) 8 5, tt)) (omega arith)

abbrev deleting : ReportsJob
deleting = record { prefix = 4; count = 1; add = false }

update_reports-delete_example :
    TracksReport whole_numbers config report1
      (second ∷ [])
      (update_reports whole_numbers config report1 deleting ring
        (record std_report { report = two_added })).report
unfolding visited next_id conditions_hold has_flag predates update_reports mark_start timercmp
    add_func update_report1_add update_add map_get map_add find assign str_eq report1_index
update_reports-delete_example =
    update_reports-delete whole_numbers config report1 (second ∷ []) deleting ring
      (record std_report { report = two_added }) refl update_reports-add_example
      (timed (b'a' ∷ []) 7 3, tt) (refl, tt) (omega arith)

abbrev by_script : StatsRecord whole_numbers → CString
by_script = index_of whole_numbers config report1

abbrev plain : StatsRecord whole_numbers → List Label
plain = labels_of whole_numbers config report1

abbrev one_added : Report whole_numbers
one_added = update_add whole_numbers config by_script plain first empty_report

update_add-Added_example :
    Added whole_numbers config by_script plain [] first empty_report one_added
update_add-Added_example =
    update_add-Added whole_numbers config by_script plain [] empty_report first empty_report-Tracks
      (timed (b'a' ∷ []) 7 3) (omega arith)

one_added-Tracks : Tracks whole_numbers config by_script (first ∷ []) one_added
one_added-Tracks =
    update_add-Tracks whole_numbers config by_script plain [] empty_report first empty_report-Tracks
      (timed (b'a' ∷ []) 7 3) (omega arith)

update_delete-Tracks_example :
    Tracks whole_numbers config by_script []
      (update_delete whole_numbers config by_script plain first one_added)
unfolding predates update_add timercmp map_get
update_delete-Tracks_example =
    update_delete-Tracks whole_numbers config by_script plain [] one_added first one_added-Tracks
      (timed (b'a' ∷ []) 7 3) (omega arith) refl

stored : (script : CString) → length script < 129 → (n t : ℕ) → IsStored (request script n t)
stored script h n t = record { script_fits = h; server_fits = omega arith; host_fits = omega arith }

joined_reports-separate_example :
    (report4_index first ≡ report4_index second
      → (first.server_name ≡ second.server_name) × (first.script_name ≡ second.script_name))
    × (report5_index first ≡ report5_index second
        → (first.hostname ≡ second.hostname) × (first.script_name ≡ second.script_name))
    × (report6_index first ≡ report6_index second
        → (first.hostname ≡ second.hostname) × (first.server_name ≡ second.server_name))
joined_reports-separate_example =
    joined_reports-separate first second (stored (b'a' ∷ []) (omega arith) 7 3)
      (stored (b'b' ∷ []) (omega arith) 8 5) ((omega arith, tt), (omega arith, tt))
      ((omega arith, tt), (omega arith, tt))

empty_report-Summarises : Summarises whole_numbers config [] empty_report
unfolding total tally histogram_value lmap_get
empty_report-Summarises = record {
  all_counted = refl;
  all_req_time = null-SumsTo;
  all_ru_utime = null-SumsTo;
  all_ru_stime = null-SumsTo;
  all_buckets = record { is_map = tt; count_is = λ j. refl };
}

abbrev one_summed : Report whole_numbers
one_summed = update_report_info_add whole_numbers config first empty_report

update_report_info_add-Summarises_example : Summarises whole_numbers config (first ∷ []) one_summed
update_report_info_add-Summarises_example =
    update_report_info_add-Summarises whole_numbers config [] empty_report first
      empty_report-Summarises (timed (b'a' ∷ []) 7 3) (omega arith)

update_report_info_delete-Summarises_example :
    Summarises whole_numbers config []
      (update_report_info_delete whole_numbers config first one_summed)
unfolding predates update_report_info_add timercmp
update_report_info_delete-Summarises_example =
    update_report_info_delete-Summarises whole_numbers config [] one_summed first
      update_report_info_add-Summarises_example (timed (b'a' ∷ []) 7 3) (omega arith) refl
