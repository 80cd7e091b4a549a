-- ===== src/RtagReport/Delete.antt =====
-- A request leaves a request tag report of src/data.cc.
use pinba_engine.Common.{
  ==_iff, Bool, Bool-cases, Eq, List, Option, Option-cases, ap, arith, false, fresh, inl, inr,
  length, nat_eq, none, refl, some, string_eq, sub64, subst, suc, sym, true, ◌%◌, ◌+ℤ◌, ◌-◌, ◌<◌,
  ◌==◌, ◌^◌, ◌∙◌, ◌∷◌, ◌≡◌,
}
use pinba_engine.Floats.{Floats}
use pinba_engine.Histogram.{HistogramConfig}
use pinba_engine.Record.{IsTimed, StatsRecord}
use pinba_engine.Store.{Store}
use pinba_engine.Report.Spec.{tally, tally-le-length, total}
use pinba_engine.Report.Rows.{RowOk, RowOk-uncons_other, subtract_from_row-IsRow}
use pinba_engine.Report.{Label, ReportData, subtract_from_row}
use pinba_engine.RtagReport.Window.{
  RtagTracks, has_group, has_group-some, has_key, in_rows-some, in_rows_of, is_some,
}
use pinba_engine.RtagReport.{
  RtagReport, rtag_delete, rtag_delete_at, rtag_predates, rtag_subtract_totals,
}
use pinba_engine.Time.{Timeval, micros, timersub}
use pinba_engine.Report.Sums.{SumsTo, timersub-SumsTo}

module _ (fl : Floats) (cfg : HistogramConfig fl) {K : Type 0} ⦃e : Eq K⦄
    (store : Store K (ReportData fl)) (key_of : StatsRecord fl → Option K)
    (labels_of : StatsRecord fl → List Label) where
  open store use {Table, IsTable, get, put, remove, entries}

  abbrev Tracking : List (StatsRecord fl) → RtagReport fl Table → Type 0
  Tracking = RtagTracks fl cfg store key_of labels_of

  abbrev in_rows : K → StatsRecord fl → Bool
  in_rows = in_rows_of fl cfg store key_of labels_of

  abbrev grouped : StatsRecord fl → Bool
  grouped = has_group fl cfg store key_of labels_of

  -- A request without the tags leaves no trace.
  no_group-leaves :
      (live : List (StatsRecord fl)) (report : RtagReport fl Table) (r : StatsRecord fl)
      → key_of r ≡ none
      → Tracking (r ∷ live) report
      → Tracking live report
  unfolding total
  no_group-leaves live report r h v = record {
    rows = λ k.
        RowOk-uncons_other fl cfg (in_rows k) live r (get report.results k)
          (ap (has_key fl cfg store key_of labels_of k) h) (v.rows k);
    is_table = v.is_table;
    rows_counted = v.rows_counted;
    time_sum = rw (in_rows_none) at v.time_sum;
    ru_utime_sum = rw (in_rows_none) at v.ru_utime_sum;
    ru_stime_sum = rw (in_rows_none) at v.ru_stime_sum;
  }
    where
      in_rows_none : is_some (key_of r) ≡ false
      in_rows_none = ap is_some h

  -- The row of the request that leaves.
  leaving_row :
      (live : List (StatsRecord fl)) (report : RtagReport fl Table) (r : StatsRecord fl) (j k : K)
      (d : ReportData fl)
      → key_of r ≡ some j
      → e.beq j k ≡ true
      → get report.results j ≡ some d
      → Tracking (r ∷ live) report
      → RowOk fl cfg (in_rows k) (r ∷ live) (some d)
  leaving_row live report r j k d h same has_row v =
      subst (λ o. RowOk fl cfg (in_rows k) (r ∷ live) o)
        (ap (get report.results) (sym ((e.beq_iff j k).0 same)) ∙ has_row) (v.rows k)

  left_count :
      (p : StatsRecord fl → Bool) (live : List (StatsRecord fl)) (r : StatsRecord fl)
      (d : ReportData fl)
      → p r ≡ true
      → RowOk fl cfg p (r ∷ live) (some d)
      → length live < 2 ^ 64 - 1
      → sub64 d.req_count 1 ≡ tally p live
  unfolding tally
  left_count p live r d h row b =
      let one_more : tally p (r ∷ live) ≡ suc (tally p live) = unfold tally in rw h (omega arith) in
      omega (arith, row.1.counted, one_more, tally-le-length p live)

  rtag_delete_at-rows :
      (live : List (StatsRecord fl)) (report : RtagReport fl Table) (r : StatsRecord fl) (j k : K)
      (d : ReportData fl)
      → key_of r ≡ some j
      → get report.results j ≡ some d
      → Tracking (r ∷ live) report
      → IsTimed r
      → length live < 2 ^ 64 - 1
      → RowOk fl cfg
          (in_rows k)
          live
          (get (rtag_delete_at fl cfg store r j report (some d)).results k)
  unfolding rtag_delete_at
  rtag_delete_at-rows live report r j k d h has_row v t b =
      elim (Bool-cases ((sub64 d.req_count 1) == 0)) [
        | inl last ↦
            rw (last, store.get-remove report.results j k v.is_table)
              (elim (Bool-cases (e.beq j k)) [
                | inl same ↦ rw same (
                    sym (
                      left_count (in_rows k) live r d
                        (in_rows-some fl cfg store key_of labels_of r j k h ∙ same)
                        (leaving_row live report r j k d h same has_row v) b)
                    ∙ (==_iff (sub64 d.req_count 1) 0).0 last)
                | inr other ↦ rw other (
                    RowOk-uncons_other fl cfg (in_rows k) live r (get report.results k)
                      (in_rows-some fl cfg store key_of labels_of r j k h ∙ other) (v.rows k))
              ])
        | inr more ↦
            rw (more, store.get-put report.results j k (subtract_from_row fl cfg r d))
              (elim (Bool-cases (e.beq j k)) [
                | inl same ↦ rw same (
                    let here = in_rows-some fl cfg store key_of labels_of r j k h ∙ same in
                    let row = leaving_row live report r j k d h same has_row v in
                    (
                      ground (arith, left_count (in_rows k) live r d here row b),
                      subtract_from_row-IsRow fl cfg (in_rows k) live r d here t b row.1,
                    ))
                | inr other ↦ rw other (
                    RowOk-uncons_other fl cfg (in_rows k) live r (get report.results k)
                      (in_rows-some fl cfg store key_of labels_of r j k h ∙ other) (v.rows k))
              ])
      ]

  -- The row is there.
  no_row_absurd :
      (live : List (StatsRecord fl)) (report : RtagReport fl Table) (r : StatsRecord fl) (j : K)
      → key_of r ≡ some j
      → get report.results j ≡ none
      → Tracking (r ∷ live) report
      → ⊥
  no_row_absurd live report r j h no_row v =
      let here = in_rows-some fl cfg store key_of labels_of r j j h ∙ (e.beq_iff j j).1 refl in
      let empty : tally (in_rows j) (r ∷ live) ≡ 0 =
        subst (λ o. RowOk fl cfg (in_rows j) (r ∷ live) o) no_row (v.rows j) in
      let one_more : tally (in_rows j) (r ∷ live) ≡ suc (tally (in_rows j) live) =
        unfold tally in rw here (omega arith) in
      omega (arith, empty, one_more)

  total-front :
      (f : StatsRecord fl → Timeval) (live : List (StatsRecord fl)) (r : StatsRecord fl) (j : K)
      → key_of r ≡ some j
      → total grouped f (r ∷ live) ≡ micros (f r) +ℤ total grouped f live
  unfolding total
  total-front f live r j h = rw (has_group-some fl cfg store key_of labels_of r j h) refl

  left_times :
      (live : List (StatsRecord fl)) (report : RtagReport fl Table) (r : StatsRecord fl) (j : K)
      → key_of r ≡ some j
      → Tracking (r ∷ live) report
      → IsTimed r
      → SumsTo (timersub report.time_total r.req_time) (total grouped (λ r. r.req_time) live)
        × SumsTo (timersub report.ru_utime_total r.ru_utime) (total grouped (λ r. r.ru_utime) live)
        × SumsTo (timersub report.ru_stime_total r.ru_stime) (total grouped (λ r. r.ru_stime) live)
  left_times live report r j h v t = (
    timersub-SumsTo report.time_total r.req_time _
        (rw (← total-front (λ r. r.req_time) live r j h) v.time_sum) t.req_time_normal,
    timersub-SumsTo report.ru_utime_total r.ru_utime _
        (rw (← total-front (λ r. r.ru_utime) live r j h) v.ru_utime_sum) t.ru_utime_normal,
    timersub-SumsTo report.ru_stime_total r.ru_stime _
        (rw (← total-front (λ r. r.ru_stime) live r j h) v.ru_stime_sum) t.ru_stime_normal,
  )

  rtag_delete_at-rest :
      (live : List (StatsRecord fl)) (report : RtagReport fl Table) (r : StatsRecord fl) (j : K)
      (d : ReportData fl)
      → key_of r ≡ some j
      → get report.results j ≡ some d
      → Tracking (r ∷ live) report
      → IsTimed r
      → let report' = rtag_delete_at fl cfg store r j report (some d) in
        IsTable report'.results
        × (report'.results_cnt ≡ entries report'.results % 2 ^ 64)
        × SumsTo report'.time_total (total grouped (λ r. r.req_time) live)
        × SumsTo report'.ru_utime_total (total grouped (λ r. r.ru_utime) live)
        × SumsTo report'.ru_stime_total (total grouped (λ r. r.ru_stime) live)
  unfolding rtag_delete_at rtag_subtract_totals
  rtag_delete_at-rest live report r j d h has_row v t =
      let times = left_times live report r j h v t in
      elim (Bool-cases ((sub64 d.req_count 1) == 0)) [
        | inl last ↦ rw last (
          store.remove-IsTable report.results j v.is_table,
          omega (arith, v.rows_counted, store.entries-remove report.results j d v.is_table has_row),
          times.0,
          times.1,
          times.2,
        )
        | inr more ↦ rw more (
          store.put-IsTable report.results j _ v.is_table,
          omega (
            arith,
            v.rows_counted,
            ap fresh has_row,
            store.entries-put report.results j (subtract_from_row fl cfg r d) v.is_table,
          ),
          times.0,
          times.1,
          times.2,
        )
      ]

  rtag_delete_at-Tracking :
      (live : List (StatsRecord fl)) (report : RtagReport fl Table) (r : StatsRecord fl) (j : K)
      (o : Option (ReportData fl))
      → key_of r ≡ some j
      → get report.results j ≡ o
      → Tracking (r ∷ live) report
      → IsTimed r
      → length live < 2 ^ 64 - 1
      → Tracking live (rtag_delete_at fl cfg store r j report o)
  rtag_delete_at-Tracking live report r j none h no_row v t b =
      absurd (no_row_absurd live report r j h no_row v)
  rtag_delete_at-Tracking live report r j (some d) h has_row v t b =
      let rest = rtag_delete_at-rest live report r j d h has_row v t in
      record {
        rows = λ k. rtag_delete_at-rows live report r j k d h has_row v t b;
        is_table = rest.0;
        rows_counted = rest.1;
        time_sum = rest.2;
        ru_utime_sum = rest.3;
        ru_stime_sum = rest.4;
      }

  pub rtag_delete-RtagTracks :
      (live : List (StatsRecord fl)) (report : RtagReport fl Table) (r : StatsRecord fl)
      → Tracking (r ∷ live) report
      → IsTimed r
      → length live < 2 ^ 64 - 1
      → rtag_predates report r ≡ false
      → Tracking live (rtag_delete fl cfg store key_of labels_of r report)
  unfolding rtag_delete
  rtag_delete-RtagTracks live report r v t b old = elim (Option-cases (key_of r)) [
    | inl no_key ↦ rw (rtag_delete, old, no_key) (no_group-leaves live report r no_key v)
    | inr (j, has_it) ↦
        rw (rtag_delete, old, has_it)
          (rtag_delete_at-Tracking live report r j (get report.results j) has_it refl v t b)
  ]
