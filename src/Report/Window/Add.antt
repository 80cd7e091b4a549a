-- ===== src/Report/Window/Add.antt =====
-- `PINBA_UPDATE_REPORT_ADD` of src/pinba_update_report_tpl.h: a record enters the window.
use pinba_engine.Common.{
  Bool-cases, CString, List, Option, ap, arith, false, fresh, if◌then◌else◌, inl, inr, length,
  nat_eq, none, refl, some, str_eq, str_eq_iff, str_eq_refl, string_eq, suc, true, weight_of, ◌-◌,
  ◌<◌, ◌^◌, ◌∙◌, ◌∷◌, ◌≡◌,
}
use pinba_engine.Time.{}
use pinba_engine.Floats.{Floats}
use pinba_engine.Lmap.{}
use pinba_engine.Map.{map_add, map_add-IsMap, map_count, map_count-add, map_get, map_get-add}
use pinba_engine.Histogram.{HistogramConfig}
use pinba_engine.Record.{IsTimed, StatsRecord}
use pinba_engine.Report.Sums.{SumsTo, timeradd-SumsTo}
use pinba_engine.Report.Spec.{tally, total}
use pinba_engine.Report.Rows.{RowOk, RowOk-cons_other, add_to_row-IsRow, new_row-IsRow}
use pinba_engine.Report.Window.{
  Tracks, everyone, in_group, old_count_le, req_sum, req_sum-add, results_cnt-le,
}
use pinba_engine.Report.{
  Label, Report, ReportData, add_row, add_to_row, add_totals, new_row, update_add,
}
use pinba_engine.Report.Added.{RowAdded, add_to_row-RowAdded}

module _ (fl : Floats) (cfg : HistogramConfig fl) (index : StatsRecord fl → CString)
    (labels : StatsRecord fl → List Label) where
  -- The row that a record lands in.
  added_row :
      (live : List (StatsRecord fl)) (r : StatsRecord fl) (k : CString) (o : Option (ReportData fl))
      → str_eq (index r) k ≡ true
      → IsTimed r
      → length live < 2 ^ 64 - 1
      → RowOk fl cfg (in_group fl cfg index k) live o
      → RowOk fl cfg
          (in_group fl cfg index k)
          (r ∷ live)
          (some (add_to_row fl cfg r (elim o [ none ↦ new_row fl cfg (labels r) | some d ↦ d ])))
  unfolding tally
  added_row live r k none e t b row = (
    rw e (omega arith),
    add_to_row-IsRow fl cfg (in_group fl cfg index k) live r _ e t b
        (new_row-IsRow fl cfg (in_group fl cfg index k) live (labels r) row),
  )
  added_row live r k (some d) e t b row =
      (rw e (omega arith), add_to_row-IsRow fl cfg (in_group fl cfg index k) live r d e t b row.1)

  -- What `add_row` stores, whichever branch it takes.
  add_row-results :
      (r : StatsRecord fl) (report : Report fl) (o : Option (ReportData fl))
      → (add_row fl cfg index labels r report o).results
        ≡ map_add true report.results
            (index r)
            (add_to_row fl cfg r (elim o [ none ↦ new_row fl cfg (labels r) | some d ↦ d ]))
  unfolding add_row
  add_row-results r report none = refl
  add_row-results r report (some d) = refl

  update_add-rows :
      (live : List (StatsRecord fl)) (report : Report fl) (r : StatsRecord fl) (k : CString)
      → Tracks fl cfg index live report
      → IsTimed r
      → length live < 2 ^ 64 - 1
      → RowOk fl cfg
          (in_group fl cfg index k)
          (r ∷ live)
          (map_get (update_add fl cfg index labels r report).results k)
  unfolding update_add
  update_add-rows live report r k v t b =
      rw
        (
          add_row-results r report (map_get report.results (index r)),
          map_get-add report.results (index r) k (
              add_to_row fl cfg r (elim (map_get report.results (index r)) [
                | none ↦ new_row fl cfg (labels r)
                | some d ↦ d
              ])),
        )
        (elim (Bool-cases (str_eq (index r) k)) [
          | inl e ↦ rw e (
              added_row live r k (map_get report.results (index r)) e t b
                (rw ((str_eq_iff (index r) k).0 e) (v.rows k)))
          | inr e ↦ rw e (
              RowOk-cons_other fl cfg (in_group fl cfg index k) live r (map_get report.results k) e
                (v.rows k))
        ])

  add_row-counts :
      (live : List (StatsRecord fl)) (report : Report fl) (r : StatsRecord fl)
      (o : Option (ReportData fl))
      → map_get report.results (index r) ≡ o
      → Tracks fl cfg index live report
      → length live < 2 ^ 64 - 1
      → let report' = add_row fl cfg index labels r report o in
        (report'.results_cnt ≡ map_count report'.results)
        × (req_sum report'.results ≡ suc (length live))
  unfolding add_row add_to_row new_row
  add_row-counts live report r none e v b = (
    omega (
      arith,
      v.rows_counted,
      results_cnt-le fl cfg index live report v,
      ap fresh e,
      map_count-add report.results (index r) (add_to_row fl cfg r (new_row fl cfg (labels r))),
    ),
    omega (
      arith,
      v.records_counted,
      ap (weight_of λ (d : ReportData fl). d.req_count) e,
      req_sum-add report.results (index r) (add_to_row fl cfg r (new_row fl cfg (labels r))),
    ),
  )
  add_row-counts live report r (some d) e v b = (
    omega (
      arith,
      v.rows_counted,
      ap fresh e,
      map_count-add report.results (index r) (add_to_row fl cfg r d),
    ),
    omega (
      arith,
      v.records_counted,
      ap (weight_of λ (d : ReportData fl). d.req_count) e,
      old_count_le fl cfg index live (index r) (some d) (rw e at (v.rows (index r))),
      req_sum-add report.results (index r) (add_to_row fl cfg r d),
    ),
  )

  add_row-totals :
      (live : List (StatsRecord fl)) (report : Report fl) (r : StatsRecord fl)
      (o : Option (ReportData fl))
      → Tracks fl cfg index live report
      → IsTimed r
      → let report' = add_row fl cfg index labels r report o in
        SumsTo report'.time_total (total everyone (λ r. r.req_time) (r ∷ live))
        × SumsTo report'.ru_utime_total (total everyone (λ r. r.ru_utime) (r ∷ live))
        × SumsTo report'.ru_stime_total (total everyone (λ r. r.ru_stime) (r ∷ live))
  unfolding add_row total
  add_row-totals live report r none v t = (
    timeradd-SumsTo report.time_total r.req_time _ v.time_sum t.req_time_normal,
    timeradd-SumsTo report.ru_utime_total r.ru_utime _ v.ru_utime_sum t.ru_utime_normal,
    timeradd-SumsTo report.ru_stime_total r.ru_stime _ v.ru_stime_sum t.ru_stime_normal,
  )
  add_row-totals live report r (some d) v t = (
    timeradd-SumsTo report.time_total r.req_time _ v.time_sum t.req_time_normal,
    timeradd-SumsTo report.ru_utime_total r.ru_utime _ v.ru_utime_sum t.ru_utime_normal,
    timeradd-SumsTo report.ru_stime_total r.ru_stime _ v.ru_stime_sum t.ru_stime_normal,
  )

  -- A record was added: the report tracks it too, its group's row has its floating-point sums, every
  -- other row is as it was, and so are the report's own sums with the record's share.
  pub record Added (live : List (StatsRecord fl)) (r : StatsRecord fl) (before after : Report fl)
      : Type 0 where
    pub tracks : Tracks fl cfg index (r ∷ live) after
    pub row :
        RowAdded fl
          (labels r)
          r
          (map_get before.results (index r))
          (map_get after.results (index r))
    pub others :
        (k : CString)
        → str_eq (index r) k ≡ false
        → map_get after.results k ≡ map_get before.results k
    pub kbytes : after.kbytes_total ≡ fl.plus before.kbytes_total r.doc_size
    pub footprint : after.memory_footprint ≡ fl.plus before.memory_footprint r.memory_footprint

  add_row-floats :
      (r : StatsRecord fl) (report : Report fl) (o : Option (ReportData fl))
      → let report' = add_row fl cfg index labels r report o in
        (report'.kbytes_total ≡ fl.plus report.kbytes_total r.doc_size)
        × (report'.memory_footprint ≡ fl.plus report.memory_footprint r.memory_footprint)
  unfolding add_row add_totals
  add_row-floats r report none = (refl, refl)
  add_row-floats r report (some d) = (refl, refl)

  update_add-floats :
      (r : StatsRecord fl) (report : Report fl)
      → let report' = update_add fl cfg index labels r report in
        (report'.kbytes_total ≡ fl.plus report.kbytes_total r.doc_size)
        × (report'.memory_footprint ≡ fl.plus report.memory_footprint r.memory_footprint)
  unfolding update_add
  update_add-floats r report = add_row-floats r report (map_get report.results (index r))

  update_add-get :
      (r : StatsRecord fl) (report : Report fl) (k : CString)
      → let o = map_get report.results (index r) in
        map_get (update_add fl cfg index labels r report).results k ≡ (
          if str_eq (index r) k
          then some (add_to_row fl cfg r (elim o [ none ↦ new_row fl cfg (labels r) | some d ↦ d ]))
          else map_get report.results k)
  unfolding update_add
  update_add-get r report k =
      rw (add_row-results r report (map_get report.results (index r)))
        (map_get-add report.results (index r) k _)

  pub update_add-Tracks :
      (live : List (StatsRecord fl)) (report : Report fl) (r : StatsRecord fl)
      → Tracks fl cfg index live report
      → IsTimed r
      → length live < 2 ^ 64 - 1
      → Tracks fl cfg index (r ∷ live) (update_add fl cfg index labels r report)
  unfolding update_add
  update_add-Tracks live report r v t b =
      let o = map_get report.results (index r) in
      let counts = add_row-counts live report r o refl v b in
      let totals = add_row-totals live report r o v t in
      record {
        rows = λ k. unfold update_add in update_add-rows live report r k v t b;
        is_map =
            rw (add_row-results r report o) (map_add-IsMap report.results (index r) _ v.is_map);
        rows_counted = counts.0;
        records_counted = counts.1;
        time_sum = totals.0;
        ru_utime_sum = totals.1;
        ru_stime_sum = totals.2;
      }

  -- Adding a record to a report that tracks fewer than 2^64 - 1 live records gives a report that
  -- tracks that record too: its group's row has one request, its times and its histogram bucket
  -- more, and the counts and times of the report are right. The document size and the memory
  -- footprint are added to the sums of the row, a new one starting from 0, and to those of the
  -- report; a new row has the record's labels and an old one keeps its own; every other row is as
  -- it was. The record's times are normal.
  pub update_add-Added :
      (live : List (StatsRecord fl)) (report : Report fl) (r : StatsRecord fl)
      → Tracks fl cfg index live report
      → IsTimed r
      → length live < 2 ^ 64 - 1
      → Added live r report (update_add fl cfg index labels r report)
  update_add-Added live report r v t b = record {
    tracks = update_add-Tracks live report r v t b;
    row =
        rw (update_add-get r report (index r), str_eq_refl (index r))
          (add_to_row-RowAdded fl cfg (labels r) r (map_get report.results (index r)));
    others = λ k other. update_add-get r report k ∙ rw other refl;
    kbytes = (update_add-floats r report).0;
    footprint = (update_add-floats r report).1;
  }
