-- ===== src/TagReport/Tables.antt =====
-- All timers of a request, each in the group of its tags: the rows of a tag report of src/data.cc.
use pinba_engine.Common.{
  Bool-cases, CString, Eq, List, Option, Option-cases, [], ap, arith, fresh, if◌then◌else◌, inl,
  inr, nat_eq, none, refl, some, string_eq, ℕ, ◌%◌, ◌^◌, ◌∙◌, ◌∷◌, ◌≡◌,
}
use pinba_engine.Time.{}
use pinba_engine.Floats.{Floats}
use pinba_engine.Histogram.{HistogramConfig}
use pinba_engine.Record.{}
use pinba_engine.Store.{Store}
use pinba_engine.TagReport.Members.{matching}
use pinba_engine.TagReport.Rows.{}
use pinba_engine.TagReport.Timers.{add_all, delete_all}
use pinba_engine.TagReport.{
  TagReport, TagRow, Timer, add_at, add_timer, add_timers, delete_at, delete_timer, delete_timers,
  store_row,
}

module _ (fl : Floats) (cfg : HistogramConfig fl) {K : Type 0} ⦃e : Eq K⦄
    (store : Store K TagRow) where
  open store use {Table, IsTable, get, put, remove, entries}

  -- The rows are a table, and the report counts them.
  pub record IsCounted (report : TagReport Table) : Type 0 where
    pub is_table : IsTable report.results
    pub rows_counted : report.results_cnt ≡ entries report.results % 2 ^ 64

  module _ (key : Timer → Option K) (labels : Timer → List CString) where
    add_at-get :
        (id : ℕ) (t : Timer) (j k : K) (report : TagReport Table)
        → get (add_at fl cfg store key labels id t j report).results k ≡ (
            if e.beq j k
            then some (add_timer fl cfg id (labels t) t (get report.results k))
            else get report.results k)
    unfolding add_at
    add_at-get id t j k report =
        store.get-put report.results j k (add_timer fl cfg id (labels t) t (get report.results j))
        ∙ elim (Bool-cases (e.beq j k)) [
          | inl same ↦ rw (same, (e.beq_iff j k).0 same) refl
          | inr other ↦ rw other refl
        ]

    add_timers-none :
        (id : ℕ) (t : Timer) (ts : List Timer) (report : TagReport Table)
        → key t ≡ none
        → add_timers fl cfg store key labels id (t ∷ ts) report
          ≡ add_timers fl cfg store key labels id ts report
    unfolding add_timers
    add_timers-none id t ts report h = rw h refl

    add_timers-some :
        (id : ℕ) (t : Timer) (ts : List Timer) (j : K) (report : TagReport Table)
        → key t ≡ some j
        → add_timers fl cfg store key labels id (t ∷ ts) report
          ≡ add_timers fl cfg store key labels id ts (add_at fl cfg store key labels id t j report)
    unfolding add_timers
    add_timers-some id t ts j report h = rw h refl

    pub add_timers-get :
        (id : ℕ) (ts : List Timer) (k : K) (report : TagReport Table)
        → get (add_timers fl cfg store key labels id ts report).results k
          ≡ add_all fl cfg id labels (matching key k ts) (get report.results k)
    unfolding add_timers
    add_timers-get id [] k report = unfold add_timers add_all in refl
    add_timers-get id (t ∷ ts) k report = elim (Option-cases (key t)) [
      | inl no_key ↦
          rw (add_timers-none id t ts report no_key, no_key) (add_timers-get id ts k report)
      | inr (j, has_key) ↦
          rw
            (
              add_timers-some id t ts j report has_key,
              has_key,
              add_timers-get id ts k (add_at fl cfg store key labels id t j report),
              add_at-get id t j k report,
            )
            (elim (Bool-cases (e.beq j k)) [
              | inl same ↦ rw same (unfold add_all in refl)
              | inr other ↦ rw other refl
            ])
    ]

    add_at-IsCounted :
        (id : ℕ) (t : Timer) (k : K) (report : TagReport Table)
        → IsCounted report
        → IsCounted (add_at fl cfg store key labels id t k report)
    unfolding add_at
    add_at-IsCounted id t k report v = record {
      is_table = store.put-IsTable report.results k _ v.is_table;
      rows_counted = elim (Option-cases (get report.results k)) [
        | inl no_row ↦ rw no_row (
            omega (
              arith,
              v.rows_counted,
              ap fresh no_row,
              store.entries-put report.results k (add_timer fl cfg id (labels t) t none) v.is_table,
            ))
        | inr (d, has_row) ↦ rw has_row (
            omega (
              arith,
              v.rows_counted,
              ap fresh has_row,
              store.entries-put report.results k (add_timer fl cfg id (labels t) t (some d))
                  v.is_table,
            ))
      ];
    }

    pub add_timers-IsCounted :
        (id : ℕ) (ts : List Timer) (report : TagReport Table)
        → IsCounted report
        → IsCounted (add_timers fl cfg store key labels id ts report)
    unfolding add_timers
    add_timers-IsCounted id [] report v = v
    add_timers-IsCounted id (t ∷ ts) report v = elim (Option-cases (key t)) [
      | inl no_key ↦
          rw (add_timers-none id t ts report no_key) (add_timers-IsCounted id ts report v)
      | inr (j, has_key) ↦
          rw (add_timers-some id t ts j report has_key)
            (add_timers-IsCounted id ts _ (add_at-IsCounted id t j report v))
    ]

    store_row-get :
        (j k : K) (report : TagReport Table) (o : Option TagRow)
        → IsCounted report
        → get (store_row fl cfg store key labels j report o).results k
          ≡ (if e.beq j k then o else get report.results k)
    unfolding store_row
    store_row-get j k report none v = store.get-remove report.results j k v.is_table
    store_row-get j k report (some d) v = store.get-put report.results j k d

    store_row-IsCounted :
        (k : K) (report : TagReport Table) (d : TagRow) (o : Option TagRow)
        → get report.results k ≡ some d
        → IsCounted report
        → IsCounted (store_row fl cfg store key labels k report o)
    unfolding store_row
    store_row-IsCounted k report d none h v = record {
      is_table = store.remove-IsTable report.results k v.is_table;
      rows_counted =
          omega (arith, v.rows_counted, store.entries-remove report.results k d v.is_table h);
    }
    store_row-IsCounted k report d (some d') h v = record {
      is_table = store.put-IsTable report.results k d' v.is_table;
      rows_counted =
          omega
            (arith, v.rows_counted, ap fresh h, store.entries-put report.results k d' v.is_table);
    }

    -- What a deletion does to the row of its own group.
    deleted : ℕ → Timer → Option TagRow → Option TagRow
    deleted id t o = elim o [ none ↦ none | some d ↦ delete_timer fl cfg id t d ]

    delete_at-get :
        (id : ℕ) (t : Timer) (j k : K) (report : TagReport Table) (o : Option TagRow)
        → get report.results j ≡ o
        → IsCounted report
        → get (delete_at fl cfg store key labels id t j report o).results k
          ≡ (if e.beq j k then deleted id t (get report.results k) else get report.results k)
    unfolding delete_at deleted
    delete_at-get id t j k report none h v = elim (Bool-cases (e.beq j k)) [
      | inl same ↦ rw (same, ← (e.beq_iff j k).0 same, h) refl
      | inr other ↦ rw other refl
    ]
    delete_at-get id t j k report (some d) h v =
        store_row-get j k report (delete_timer fl cfg id t d) v ∙ elim (Bool-cases (e.beq j k)) [
          | inl same ↦ rw (same, ← (e.beq_iff j k).0 same, h) refl
          | inr other ↦ rw other refl
        ]

    delete_at-IsCounted :
        (id : ℕ) (t : Timer) (k : K) (report : TagReport Table) (o : Option TagRow)
        → get report.results k ≡ o
        → IsCounted report
        → IsCounted (delete_at fl cfg store key labels id t k report o)
    unfolding delete_at
    delete_at-IsCounted id t k report none h v = v
    delete_at-IsCounted id t k report (some d) h v =
        store_row-IsCounted k report d (delete_timer fl cfg id t d) h v

    -- The report after the deletion of one timer.
    abbrev delete_one : ℕ → Timer → K → TagReport Table → TagReport Table
    delete_one id t j report =
        delete_at fl cfg store key labels id t j report (get report.results j)

    delete_timers-none :
        (id : ℕ) (t : Timer) (ts : List Timer) (report : TagReport Table)
        → key t ≡ none
        → delete_timers fl cfg store key labels id (t ∷ ts) report
          ≡ delete_timers fl cfg store key labels id ts report
    unfolding delete_timers
    delete_timers-none id t ts report h = rw h refl

    delete_timers-some :
        (id : ℕ) (t : Timer) (ts : List Timer) (j : K) (report : TagReport Table)
        → key t ≡ some j
        → delete_timers fl cfg store key labels id (t ∷ ts) report
          ≡ delete_timers fl cfg store key labels id ts (delete_one id t j report)
    unfolding delete_timers
    delete_timers-some id t ts j report h = rw h refl

    pub delete_timers-IsCounted :
        (id : ℕ) (ts : List Timer) (report : TagReport Table)
        → IsCounted report
        → IsCounted (delete_timers fl cfg store key labels id ts report)
    unfolding delete_timers
    delete_timers-IsCounted id [] report v = v
    delete_timers-IsCounted id (t ∷ ts) report v = elim (Option-cases (key t)) [
      | inl no_key ↦
          rw (delete_timers-none id t ts report no_key) (delete_timers-IsCounted id ts report v)
      | inr (j, has_key) ↦ rw (delete_timers-some id t ts j report has_key) (
          delete_timers-IsCounted id ts (delete_one id t j report)
            (delete_at-IsCounted id t j report (get report.results j) refl v))
    ]

    pub delete_timers-get :
        (id : ℕ) (ts : List Timer) (k : K) (report : TagReport Table)
        → IsCounted report
        → get (delete_timers fl cfg store key labels id ts report).results k
          ≡ delete_all fl cfg id (matching key k ts) (get report.results k)
    unfolding deleted
    delete_timers-get id [] k report v = unfold delete_timers delete_all in refl
    delete_timers-get id (t ∷ ts) k report v = elim (Option-cases (key t)) [
      | inl no_key ↦
          rw (delete_timers-none id t ts report no_key, no_key) (delete_timers-get id ts k report v)
      | inr (j, has_key) ↦
          rw
            (
              delete_timers-some id t ts j report has_key,
              has_key,
              delete_timers-get id ts k (delete_one id t j report)
                  (delete_at-IsCounted id t j report (get report.results j) refl v),
              delete_at-get id t j k report (get report.results j) refl v,
            )
            (elim (Bool-cases (e.beq j k)) [
              | inl same ↦ rw same (unfold delete_all deleted in refl)
              | inr other ↦ rw other refl
            ])
    ]
