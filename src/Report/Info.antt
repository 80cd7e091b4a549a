-- ===== src/Report/Info.antt =====
-- The report of all requests, src/pinba_update_report.h: `pinba_update_report_info_add` and
-- `pinba_update_report_info_delete`.
use pinba_engine.Common.{
  List, arith, false, length, nat_eq, string_eq, ℕ, ◌-◌, ◌<◌, ◌==◌, ◌^◌, ◌∷◌, ◌≡◌,
}
use pinba_engine.Time.{}
use pinba_engine.Floats.{Floats}
use pinba_engine.Histogram.{HistogramConfig}
use pinba_engine.Record.{IsTimed, StatsRecord}
use pinba_engine.Report.{Report, predates, update_report_info_add, update_report_info_delete}
use pinba_engine.Report.Sums.{
  Holds, SumsTo, add-Holds, remove-Holds, timeradd-SumsTo, timersub-SumsTo,
}
use pinba_engine.Report.Spec.{tally, tally-le-length, total}
use pinba_engine.Report.Rows.{in_bucket}
use pinba_engine.Report.Window.{everyone}

module _ (fl : Floats) (cfg : HistogramConfig fl) where
  -- The report has the number, the times and the histogram of all live records.
  pub record Summarises (live : List (StatsRecord fl)) (report : Report fl) : Type 0 where
    pub all_counted : report.results_cnt ≡ length live
    pub all_req_time : SumsTo report.time_total (total everyone (λ r. r.req_time) live)
    pub all_ru_utime : SumsTo report.ru_utime_total (total everyone (λ r. r.ru_utime) live)
    pub all_ru_stime : SumsTo report.ru_stime_total (total everyone (λ r. r.ru_stime) live)
    pub all_buckets : Holds report.std_histogram (λ j. tally (in_bucket fl cfg everyone j) live)

  bucket_small :
      (live : List (StatsRecord fl)) (j : ℕ)
      → length live < 2 ^ 64 - 1
      → tally (in_bucket fl cfg everyone j) live < 2 ^ 64 - 1
  bucket_small live j b = omega (arith, tally-le-length (in_bucket fl cfg everyone j) live)

  -- Adding a record with normal times to the report of fewer than 2^64 - 1 live records gives the
  -- report of that record and those: their number, their times and their histogram.
  pub update_report_info_add-Summarises :
      (live : List (StatsRecord fl)) (report : Report fl) (r : StatsRecord fl)
      → Summarises live report
      → IsTimed r
      → length live < 2 ^ 64 - 1
      → Summarises (r ∷ live) (update_report_info_add fl cfg r report)
  unfolding update_report_info_add total tally
  update_report_info_add-Summarises live report r v t b = record {
    all_counted = omega (arith, v.all_counted);
    all_req_time = timeradd-SumsTo report.time_total r.req_time _ v.all_req_time t.req_time_normal;
    all_ru_utime =
        timeradd-SumsTo report.ru_utime_total r.ru_utime _ v.all_ru_utime t.ru_utime_normal;
    all_ru_stime =
        timeradd-SumsTo report.ru_stime_total r.ru_stime _ v.all_ru_stime t.ru_stime_normal;
    all_buckets =
        add-Holds fl cfg report.std_histogram r.req_time _ (λ j. bucket_small live j b)
          v.all_buckets;
  }

  -- Deleting one of the records, with normal times and not older than the report, gives the report
  -- of the others, of which there are fewer than 2^64 - 1.
  pub update_report_info_delete-Summarises :
      (live : List (StatsRecord fl)) (report : Report fl) (r : StatsRecord fl)
      → Summarises (r ∷ live) report
      → IsTimed r
      → length live < 2 ^ 64 - 1
      → predates report r ≡ false
      → Summarises live (update_report_info_delete fl cfg r report)
  unfolding update_report_info_delete total tally
  update_report_info_delete-Summarises live report r v t b old =
      let some_left : (report.results_cnt == 0) ≡ false = ground (arith, v.all_counted) in
      rw (some_left, old)
        (record {
          all_counted = omega (arith, v.all_counted);
          all_req_time =
              timersub-SumsTo report.time_total r.req_time _ v.all_req_time t.req_time_normal;
          all_ru_utime =
              timersub-SumsTo report.ru_utime_total r.ru_utime _ v.all_ru_utime t.ru_utime_normal;
          all_ru_stime =
              timersub-SumsTo report.ru_stime_total r.ru_stime _ v.all_ru_stime t.ru_stime_normal;
          all_buckets =
              remove-Holds fl cfg report.std_histogram r.req_time _ (λ j. bucket_small live j b)
                v.all_buckets;
        })
