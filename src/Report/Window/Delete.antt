-- ===== src/Report/Window/Delete.antt =====
-- `PINBA_UPDATE_REPORT_DELETE` of src/pinba_update_report_tpl.h: the oldest record leaves the
-- window.
use pinba_engine.Common.{
  ==_iff, Bool-cases, CString, List, Option-cases, ap, arith, false, fresh, inl, inr, length,
  nat_eq, none, refl, some, str_eq, str_eq_iff, str_eq_refl, string_eq, subst, suc, sym, true,
  weight_of, ◌-◌, ◌<◌, ◌==◌, ◌^◌, ◌∙◌, ◌∷◌, ◌≡◌,
}
use pinba_engine.Time.{}
use pinba_engine.Floats.{Floats}
use pinba_engine.Lmap.{}
use pinba_engine.Map.{
  IsMap, map_add-IsMap, map_count, map_count-add, map_count-delete, map_delete-IsMap, map_get,
  map_get-add, map_get-delete,
}
use pinba_engine.Histogram.{HistogramConfig}
use pinba_engine.Record.{IsTimed, StatsRecord}
use pinba_engine.Report.Sums.{SumsTo, timersub-SumsTo}
use pinba_engine.Report.Spec.{tally, total}
use pinba_engine.Report.Rows.{IsRow, RowOk, RowOk-uncons_other, subtract_from_row-IsRow}
use pinba_engine.Report.Window.{
  Tracks, everyone, in_group, old_count_le, req_sum, req_sum-add, req_sum-delete, results_cnt-le,
}
use pinba_engine.Report.{
  Label, Report, ReportData, delete_row, predates, subtract_from_row, update_delete,
}

module _ (fl : Floats) (cfg : HistogramConfig fl) (index : StatsRecord fl → CString)
    (labels : StatsRecord fl → List Label) where
  tally_here :
      (live : List (StatsRecord fl)) (r : StatsRecord fl) (k : CString)
      → str_eq (index r) k ≡ true
      → tally (in_group fl cfg index k) (r ∷ live) ≡ suc (tally (in_group fl cfg index k) live)
  unfolding tally
  tally_here live r k same = rw same (omega arith)

  -- The row of the record that leaves.
  IsRow-here :
      (live : List (StatsRecord fl)) (report : Report fl) (r : StatsRecord fl) (d : ReportData fl)
      (k : CString)
      → str_eq (index r) k ≡ true
      → map_get report.results (index r) ≡ some d
      → Tracks fl cfg index (r ∷ live) report
      → IsRow fl cfg (in_group fl cfg index k) (r ∷ live) d
        × (d.req_count ≡ suc (tally (in_group fl cfg index k) live))
  IsRow-here live report r d k same e v =
      let row =
        subst (λ o. RowOk fl cfg (in_group fl cfg index k) (r ∷ live) o)
          (ap (map_get report.results) (sym ((str_eq_iff (index r) k).0 same)) ∙ e) (v.rows k) in
      (row.1, omega (arith, row.1.counted, tally_here live r k same))

  delete_row-rows :
      (live : List (StatsRecord fl)) (report : Report fl) (r : StatsRecord fl) (d : ReportData fl)
      (k : CString)
      → map_get report.results (index r) ≡ some d
      → Tracks fl cfg index (r ∷ live) report
      → IsTimed r
      → length live < 2 ^ 64 - 1
      → RowOk fl cfg
          (in_group fl cfg index k)
          live
          (map_get (delete_row fl cfg index labels r report (some d)).results k)
  unfolding delete_row
  delete_row-rows live report r d k e v t b = elim (Bool-cases (d.req_count == 1)) [
    | inl last ↦
        rw (last, map_get-delete report.results (index r) k v.is_map)
          (elim (Bool-cases (str_eq (index r) k)) [
            | inl same ↦ rw same (
                omega
                  (arith, (IsRow-here live report r d k same e v).1, (==_iff d.req_count 1).0 last))
            | inr other ↦ rw other (
                RowOk-uncons_other fl cfg (in_group fl cfg index k) live r
                  (map_get report.results k) other (v.rows k))
          ])
    | inr more ↦
        rw (more, map_get-add report.results (index r) k (subtract_from_row fl cfg r d))
          (elim (Bool-cases (str_eq (index r) k)) [
            | inl same ↦ rw same (
              ground (arith, (IsRow-here live report r d k same e v).1),
              subtract_from_row-IsRow fl cfg (in_group fl cfg index k) live r d same t b
                  (IsRow-here live report r d k same e v).0,
            )
            | inr other ↦ rw other (
                RowOk-uncons_other fl cfg (in_group fl cfg index k) live r
                  (map_get report.results k) other (v.rows k))
          ])
  ]

  delete_row-counts :
      (live : List (StatsRecord fl)) (report : Report fl) (r : StatsRecord fl) (d : ReportData fl)
      → map_get report.results (index r) ≡ some d
      → Tracks fl cfg index (r ∷ live) report
      → length live < 2 ^ 64 - 1
      → let report' = delete_row fl cfg index labels r report (some d) in
        (report'.results_cnt ≡ map_count report'.results)
        × (req_sum report'.results ≡ length live)
        × IsMap report'.results
  unfolding delete_row subtract_from_row
  delete_row-counts live report r d e v b = elim (Bool-cases (d.req_count == 1)) [
    | inl last ↦ rw last (
      omega (
        arith,
        v.rows_counted,
        results_cnt-le fl cfg index (r ∷ live) report v,
        map_count-delete report.results (index r) e,
      ),
      omega (
        arith,
        v.records_counted,
        (==_iff d.req_count 1).0 last,
        ap (weight_of λ (d : ReportData fl). d.req_count) e,
        req_sum-delete report.results (index r),
      ),
      map_delete-IsMap report.results (index r) v.is_map,
    )
    | inr more ↦ rw more (
      omega (
        arith,
        v.rows_counted,
        ap fresh e,
        map_count-add report.results (index r) (subtract_from_row fl cfg r d),
      ),
      omega (
        arith,
        v.records_counted,
        ap (weight_of λ (d : ReportData fl). d.req_count) e,
        (IsRow-here live report r d (index r) (str_eq_refl (index r)) e v).1,
        old_count_le fl cfg index (r ∷ live) (index r) (some d) (rw e at (v.rows (index r))),
        req_sum-add report.results (index r) (subtract_from_row fl cfg r d),
      ),
      map_add-IsMap report.results (index r) _ v.is_map,
    )
  ]

  delete_row-totals :
      (live : List (StatsRecord fl)) (report : Report fl) (r : StatsRecord fl) (d : ReportData fl)
      → Tracks fl cfg index (r ∷ live) report
      → IsTimed r
      → let report' = delete_row fl cfg index labels r report (some d) in
        SumsTo report'.time_total (total everyone (λ r. r.req_time) live)
        × SumsTo report'.ru_utime_total (total everyone (λ r. r.ru_utime) live)
        × SumsTo report'.ru_stime_total (total everyone (λ r. r.ru_stime) live)
  unfolding delete_row total
  delete_row-totals live report r d v t =
      let time = timersub-SumsTo report.time_total r.req_time _ v.time_sum t.req_time_normal in
      let utime =
        timersub-SumsTo report.ru_utime_total r.ru_utime _ v.ru_utime_sum t.ru_utime_normal in
      let stime =
        timersub-SumsTo report.ru_stime_total r.ru_stime _ v.ru_stime_sum t.ru_stime_normal in
      elim (Bool-cases (d.req_count == 1)) [
        | inl last ↦ rw last (time, utime, stime)
        | inr more ↦ rw more (time, utime, stime)
      ]

  delete_row-Tracks :
      (live : List (StatsRecord fl)) (report : Report fl) (r : StatsRecord fl) (d : ReportData fl)
      → map_get report.results (index r) ≡ some d
      → Tracks fl cfg index (r ∷ live) report
      → IsTimed r
      → length live < 2 ^ 64 - 1
      → Tracks fl cfg index live (delete_row fl cfg index labels r report (some d))
  delete_row-Tracks live report r d e v t b =
      let counts = delete_row-counts live report r d e v b in
      let totals = delete_row-totals live report r d v t in
      record {
        rows = λ k. delete_row-rows live report r d k e v t b;
        is_map = counts.2;
        rows_counted = counts.0;
        records_counted = counts.1;
        time_sum = totals.0;
        ru_utime_sum = totals.1;
        ru_stime_sum = totals.2;
      }

  no_row_absurd :
      (live : List (StatsRecord fl)) (report : Report fl) (r : StatsRecord fl)
      → map_get report.results (index r) ≡ none
      → Tracks fl cfg index (r ∷ live) report
      → ⊥
  no_row_absurd live report r e v =
      let row =
        subst (λ o. RowOk fl cfg (in_group fl cfg index (index r)) (r ∷ live) o) e
          (v.rows (index r)) in
      omega (arith, row, tally_here live r (index r) (str_eq_refl (index r)))

  has_rows :
      (live : List (StatsRecord fl)) (report : Report fl) (r : StatsRecord fl) (d : ReportData fl)
      → map_get report.results (index r) ≡ some d
      → Tracks fl cfg index (r ∷ live) report
      → (report.results_cnt == 0) ≡ false
  has_rows live report r d e v =
      ground (arith, v.rows_counted, map_count-delete report.results (index r) e)

  -- Deleting one of the tracked records, with normal times and not older than the report, gives a
  -- report that tracks the others; a row leaves with the last record of its group. There are fewer
  -- than 2^64 - 1 others.
  pub update_delete-Tracks :
      (live : List (StatsRecord fl)) (report : Report fl) (r : StatsRecord fl)
      → Tracks fl cfg index (r ∷ live) report
      → IsTimed r
      → length live < 2 ^ 64 - 1
      → predates report r ≡ false
      → Tracks fl cfg index live (update_delete fl cfg index labels r report)
  unfolding update_delete
  update_delete-Tracks live report r v t b old =
      elim (Option-cases (map_get report.results (index r))) [
        | inl e ↦ absurd (no_row_absurd live report r e v)
        | inr (d, e) ↦
            rw (has_rows live report r d e v, old, e) (delete_row-Tracks live report r d e v t b)
      ]

  start_kept :
      (report : Report fl) (r : StatsRecord fl)
      → ((update_delete fl cfg index labels r report).start ≡ report.start)
        × ((update_delete fl cfg index labels r report).request_pool_start_id
            ≡ report.request_pool_start_id)
  unfolding update_delete delete_row
  start_kept report r = ground arith

  -- A deletion does not move the start of the report.
  pub start-update_delete :
      (report : Report fl) (r q : StatsRecord fl)
      → predates (update_delete fl cfg index labels r report) q ≡ predates report q
  unfolding predates
  start-update_delete report r q = rw ((start_kept report r).0, (start_kept report r).1) refl
