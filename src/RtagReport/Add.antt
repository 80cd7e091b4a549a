-- ===== src/RtagReport/Add.antt =====
-- A request enters a request tag report of src/data.cc.
use pinba_engine.Common.{
  Bool, Bool-cases, Eq, List, Option, Option-cases, [], ap, arith, false, fresh, inl, inr, length,
  nat_eq, none, refl, some, string_eq, true, ◌%◌, ◌++◌, ◌+ℤ◌, ◌-◌, ◌<◌, ◌^◌, ◌∙◌, ◌∷◌, ◌≡◌,
}
use pinba_engine.Time.{Timeval, micros}
use pinba_engine.Floats.{Floats}
use pinba_engine.Histogram.{HistogramConfig}
use pinba_engine.Record.{IsTimed, StatsRecord}
use pinba_engine.Store.{Store}
use pinba_engine.Report.Sums.{timeradd-SumsTo}
use pinba_engine.Report.Spec.{tally, total}
use pinba_engine.Report.Rows.{RowOk, RowOk-cons_other, RowOk-snoc, add_to_row-IsRow, new_row-IsRow}
use pinba_engine.Report.{Label, ReportData, add_to_row, new_row}
use pinba_engine.RtagReport.Window.{
  RtagTracks, has_group, has_group-some, has_key, in_rows-some, in_rows_of, is_some, total-last,
  total-last_other,
}
use pinba_engine.RtagReport.{RtagReport, row_or_new, rtag_add, rtag_add_at, rtag_add_totals}
use pinba_engine.Report.Added.{RowAdded}

module _ (fl : Floats) (cfg : HistogramConfig fl) {K : Type 0} ⦃e : Eq K⦄
    (store : Store K (ReportData fl)) (key_of : StatsRecord fl → Option K)
    (labels_of : StatsRecord fl → List Label) where
  open store use {Table, IsTable, get, put, remove, entries}

  abbrev Tracking : List (StatsRecord fl) → RtagReport fl Table → Type 0
  Tracking = RtagTracks fl cfg store key_of labels_of

  abbrev in_rows : K → StatsRecord fl → Bool
  in_rows = in_rows_of fl cfg store key_of labels_of

  abbrev grouped : StatsRecord fl → Bool
  grouped = has_group fl cfg store key_of labels_of

  -- A request without the tags is in no group.
  no_group-Tracking :
      (live : List (StatsRecord fl)) (report : RtagReport fl Table) (r : StatsRecord fl)
      → key_of r ≡ none
      → Tracking live report
      → Tracking (live ++ r ∷ []) report
  no_group-Tracking live report r h v =
      let out : grouped r ≡ false = ap is_some h in
      record {
        rows = λ k. RowOk-snoc fl cfg (in_rows k) live r (get report.results k) (
            RowOk-cons_other fl cfg (in_rows k) live r (get report.results k)
              (ap (has_key fl cfg store key_of labels_of k) h) (v.rows k));
        is_table = v.is_table;
        rows_counted = v.rows_counted;
        time_sum =
            rw (total-last_other fl cfg store key_of labels_of grouped (λ r. r.req_time) live r out)
              v.time_sum;
        ru_utime_sum =
            rw (total-last_other fl cfg store key_of labels_of grouped (λ r. r.ru_utime) live r out)
              v.ru_utime_sum;
        ru_stime_sum =
            rw (total-last_other fl cfg store key_of labels_of grouped (λ r. r.ru_stime) live r out)
              v.ru_stime_sum;
      }

  -- The row of the request that is added.
  added_row :
      (p : StatsRecord fl → Bool) (live : List (StatsRecord fl)) (r : StatsRecord fl)
      (o : Option (ReportData fl)) (labels : List Label)
      → p r ≡ true
      → IsTimed r
      → length live < 2 ^ 64 - 1
      → RowOk fl cfg p live o
      → RowOk fl cfg p (r ∷ live) (some (add_to_row fl cfg r (row_or_new fl cfg store labels o)))
  unfolding tally
  added_row p live r none labels h t b row = (
    rw h (omega arith),
    add_to_row-IsRow fl cfg p live r _ h t b (new_row-IsRow fl cfg p live labels row),
  )
  added_row p live r (some d) labels h t b row =
      (rw h (omega arith), add_to_row-IsRow fl cfg p live r d h t b row.1)

  rtag_add_at-rows :
      (live : List (StatsRecord fl)) (report : RtagReport fl Table) (r : StatsRecord fl) (j k : K)
      → key_of r ≡ some j
      → Tracking live report
      → IsTimed r
      → length live < 2 ^ 64 - 1
      → RowOk fl cfg
          (in_rows k)
          (r ∷ live)
          (get (rtag_add_at fl cfg store (labels_of r) r j report).results k)
  unfolding rtag_add_at
  rtag_add_at-rows live report r j k h v t b =
      rw
        (store.get-put report.results j k
          (add_to_row fl cfg r (row_or_new fl cfg store (labels_of r) (get report.results j))))
        (elim (Bool-cases (e.beq j k)) [
          | inl same ↦ rw same (
              added_row (in_rows k) live r (get report.results j) (labels_of r)
                (in_rows-some fl cfg store key_of labels_of r j k h ∙ same) t b
                (rw ((e.beq_iff j k).0 same) (v.rows k)))
          | inr other ↦ rw other (
              RowOk-cons_other fl cfg (in_rows k) live r (get report.results k)
                (in_rows-some fl cfg store key_of labels_of r j k h ∙ other) (v.rows k))
        ])

  rtag_add_at-counted :
      (live : List (StatsRecord fl)) (report : RtagReport fl Table) (r : StatsRecord fl) (j : K)
      → Tracking live report
      → let report' = rtag_add_at fl cfg store (labels_of r) r j report in
        report'.results_cnt ≡ entries report'.results % 2 ^ 64
  unfolding rtag_add_at
  rtag_add_at-counted live report r j v = elim (Option-cases (get report.results j)) [
    | inl no_row ↦ rw no_row (
        omega (
          arith,
          v.rows_counted,
          ap fresh no_row,
          store.entries-put report.results j
              (add_to_row fl cfg r (row_or_new fl cfg store (labels_of r) none)) v.is_table,
        ))
    | inr (d, has_row) ↦ rw has_row (
        omega (
          arith,
          v.rows_counted,
          ap fresh has_row,
          store.entries-put report.results j
              (add_to_row fl cfg r (row_or_new fl cfg store (labels_of r) (some d))) v.is_table,
        ))
  ]

  total-grouped :
      (f : StatsRecord fl → Timeval) (live : List (StatsRecord fl)) (r : StatsRecord fl) (j : K)
      → key_of r ≡ some j
      → total grouped f (live ++ r ∷ []) ≡ micros (f r) +ℤ total grouped f live
  total-grouped f live r j h =
      total-last fl cfg store key_of labels_of grouped f live r
        (has_group-some fl cfg store key_of labels_of r j h)

  rtag_add_at-Tracking :
      (live : List (StatsRecord fl)) (report : RtagReport fl Table) (r : StatsRecord fl) (j : K)
      → key_of r ≡ some j
      → Tracking live report
      → IsTimed r
      → length live < 2 ^ 64 - 1
      → Tracking (live ++ r ∷ []) (rtag_add_at fl cfg store (labels_of r) r j report)
  unfolding rtag_add_totals rtag_add_at
  rtag_add_at-Tracking live report r j h v t b = record {
    rows = λ k. RowOk-snoc fl cfg (in_rows k) live r _ (rtag_add_at-rows live report r j k h v t b);
    is_table = store.put-IsTable report.results j _ v.is_table;
    rows_counted = rtag_add_at-counted live report r j v;
    time_sum =
        rw (total-grouped (λ r. r.req_time) live r j h)
          (timeradd-SumsTo report.time_total r.req_time _ v.time_sum t.req_time_normal);
    ru_utime_sum =
        rw (total-grouped (λ r. r.ru_utime) live r j h)
          (timeradd-SumsTo report.ru_utime_total r.ru_utime _ v.ru_utime_sum t.ru_utime_normal);
    ru_stime_sum =
        rw (total-grouped (λ r. r.ru_stime) live r j h)
          (timeradd-SumsTo report.ru_stime_total r.ru_stime _ v.ru_stime_sum t.ru_stime_normal);
  }

  pub rtag_add-RtagTracks :
      (live : List (StatsRecord fl)) (report : RtagReport fl Table) (r : StatsRecord fl)
      → Tracking live report
      → IsTimed r
      → length live < 2 ^ 64 - 1
      → Tracking (live ++ r ∷ []) (rtag_add fl cfg store key_of labels_of r report)
  unfolding rtag_add
  rtag_add-RtagTracks live report r v t b = elim (Option-cases (key_of r)) [
    | inl no_key ↦ rw (rtag_add, no_key) (no_group-Tracking live report r no_key v)
    | inr (j, has_it) ↦ rw (rtag_add, has_it) (rtag_add_at-Tracking live report r j has_it v t b)
  ]

  -- What an addition does to the sums of floating-point numbers and to the other rows: nothing at all
  -- without the report's tags.
  abbrev pub RtagChange :
      StatsRecord fl → Option K → RtagReport fl Table → RtagReport fl Table → Type 0
  RtagChange r none before after = after ≡ before
  RtagChange r (some k) before after =
      (after.kbytes_total ≡ fl.plus before.kbytes_total r.doc_size)
      × (after.memory_footprint ≡ fl.plus before.memory_footprint r.memory_footprint)
      × RowAdded fl (labels_of r) r (get before.results k) (get after.results k)
      × ((j : K) → e.beq k j ≡ false → get after.results j ≡ get before.results j)

  rtag_row-RowAdded :
      (r : StatsRecord fl) (o : Option (ReportData fl))
      → RowAdded fl
          (labels_of r)
          r
          o
          (some (add_to_row fl cfg r (row_or_new fl cfg store (labels_of r) o)))
  unfolding add_to_row new_row
  rtag_row-RowAdded r none = (refl, refl, refl)
  rtag_row-RowAdded r (some d) = (refl, refl, refl)

  rtag_add_at-change :
      (report : RtagReport fl Table) (r : StatsRecord fl) (k : K)
      → RtagChange r (some k) report (rtag_add_at fl cfg store (labels_of r) r k report)
  unfolding rtag_add_totals rtag_add_at
  rtag_add_at-change report r k =
      let row =
        add_to_row fl cfg r (row_or_new fl cfg store (labels_of r) (get report.results k)) in
      (
        refl,
        refl,
        rw (store.get-put report.results k k row, (e.beq_iff k k).1 refl)
            (rtag_row-RowAdded r (get report.results k)),
        λ j other. store.get-put report.results k j row ∙ rw other refl,
      )

  pub rtag_add-change :
      (report : RtagReport fl Table) (r : StatsRecord fl)
      → RtagChange r (key_of r) report (rtag_add fl cfg store key_of labels_of r report)
  unfolding rtag_add
  rtag_add-change report r = elim (Option-cases (key_of r)) [
    | inl no_key ↦ rw (rtag_add, no_key) refl
    | inr (k, has_it) ↦ rw (rtag_add, has_it) (rtag_add_at-change report r k)
  ]
