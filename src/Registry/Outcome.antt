-- ===== src/Registry/Outcome.antt =====
-- What `pinba_regenerate_report1` and the others of src/pinba_regenerate_report.h come to.
use pinba_engine.Common.{
  Bool-cases, CString, List, Option, Option-cases, [], ap, arith, false, if◌then◌else◌, inl, inr,
  nat_eq, none, refl, some, str_eq, str_eq_iff, string_eq, true, ℕ, ◌++◌, ◌+◌, ◌==◌, ◌∷◌, ◌≡◌,
}
use pinba_engine.Map.{
  IsMap, Map, map_add, map_add-IsMap, map_delete, map_get, map_get-add, map_get-delete,
}
use pinba_engine.Lmap.{lmap_add}
use pinba_engine.Registry.{
  Array, NewReport, Registry, ReportTables, Share, array_add, array_delete, contains, items_of,
  new_report, update_report_tables, without,
}
use pinba_engine.Registry.Base.{create_report, enter_array, forget, regenerate, tell_tables}

contains-append : (a : ℕ) (xs : List ℕ) → contains a (xs ++ a ∷ []) ≡ true
contains-append a [] = ground arith
contains-append a (x ∷ xs) = ground (arith, contains-append a xs)

without-append : (a : ℕ) (xs : List ℕ) → contains a xs ≡ false → without a (xs ++ a ∷ []) ≡ xs
without-append a [] h = ground arith
without-append a (x ∷ xs) h = elim (Bool-cases (x == a)) [
  | inl same ↦ absurd (ground (arith, same, h))
  | inr other ↦ rw other (ap (λ l. x ∷ l) (without-append a xs (rw other at h)))
]

array_delete-undo :
    (array : Array) (a : ℕ)
    → contains a (items_of array) ≡ false
    → let array' =
        (array_delete
          (record { data_at = some (items_of array ++ a ∷ []); size = array.size + 1 })
          a).1 in
      (items_of array' ≡ items_of array) × (array'.size ≡ array.size)
unfolding array_delete
array_delete-undo array a h =
    rw (contains-append a (items_of array)) (without-append a (items_of array) h, omega arith)

undone_lookup :
    (m : Map ℕ) (index k : CString) (a : ℕ)
    → IsMap m
    → map_get m index ≡ none
    → map_get (map_delete (map_add true m index a) index).1 k ≡ map_get m k
undone_lookup m index k a v absent =
    rw
      (
        map_get-delete (map_add true m index a) index k (map_add-IsMap m index a v),
        map_get-add m index k a,
      )
      (elim (Bool-cases (str_eq index k)) [
        | inl same ↦ rw (same, ← (str_eq_iff index k).0 same, absent) refl
        | inr other ↦ rw other refl
      ])

module _ {C : Type 0} where
  -- The same reports are found, and listed.
  pub record Unchanged (reg reg' : Registry C) : Type 0 where
    pub same_reports : (k : CString) → map_get reg'.reports k ≡ map_get reg.reports k
    pub same_items : items_of reg'.reports_arr ≡ items_of reg.reports_arr
    pub same_size : reg'.reports_arr.size ≡ reg.reports_arr.size

  -- The report is found under its index, and listed if it is new.
  pub record Registered (reg : Registry C) (index : CString) (a : ℕ) (reg' : Registry C)
      : Type 0 where
    pub found :
        (k : CString)
        → map_get reg'.reports k ≡ (if str_eq index k then some a else map_get reg.reports k)
    pub listed : items_of reg'.reports_arr ≡ elim (map_get reg.reports index) [
      | none ↦ items_of reg.reports_arr ++ a ∷ []
      | some b ↦ items_of reg.reports_arr
    ]

  abbrev pub IsOutcome : Registry C → CString → Option ℕ × Registry C → Type 0
  IsOutcome reg index (none, reg') = Unchanged reg reg'
  IsOutcome reg index (some a, reg') = Registered reg index a reg'

  pub tables_missing :
      (reg : Registry C) (a : ℕ) (index : CString)
      → map_get reg.reports_to_tables index ≡ none
      → update_report_tables reg a index ≡ (false, reg)
  unfolding update_report_tables
  tables_missing reg a index e = rw (update_report_tables, e) refl

  tables_known :
      (reg : Registry C) (a : ℕ) (index : CString) (tables : ReportTables)
      → map_get reg.reports_to_tables index ≡ some tables
      → let result = update_report_tables reg a index in
        (result.0 ≡ true)
        × (result.1.reports ≡ reg.reports)
        × (result.1.reports_arr ≡ reg.reports_arr)
  unfolding update_report_tables
  tables_known reg a index tables e = elim (Option-cases tables.std) [
    | inl no_std ↦ rw (update_report_tables, e, no_std) (refl, refl, refl)
    | inr (old, has_std) ↦ rw (update_report_tables, e, has_std) (refl, refl, refl)
  ]

  -- A registry with a report in the map, and in the array.
  abbrev entered : Registry C → CString → ℕ → NewReport C → Registry C
  entered reg index a r = record reg {
    reports = map_add true reg.reports index a;
    memory = lmap_add reg.memory a r;
    reports_arr = record {
      data_at = some (items_of reg.reports_arr ++ a ∷ []);
      size = reg.reports_arr.size + 1;
    };
  }

  tell_tables-IsOutcome :
      (reg : Registry C) (index : CString) (a : ℕ) (r : NewReport C)
      → IsMap reg.reports
      → map_get reg.reports index ≡ none
      → contains a (items_of reg.reports_arr) ≡ false
      → IsOutcome reg index (tell_tables (entered reg index a r) a index)
  unfolding tell_tables forget
  tell_tables-IsOutcome reg index a r v absent new =
      elim (Option-cases (map_get reg.reports_to_tables index)) [
        | inl missing ↦ rw (tables_missing (entered reg index a r) a index missing) (record {
          same_reports = λ k. undone_lookup reg.reports index k a v absent;
          same_items = (array_delete-undo reg.reports_arr a new).0;
          same_size = (array_delete-undo reg.reports_arr a new).1;
        })
        | inr (tables, known) ↦
            let told = tables_known (entered reg index a r) a index tables known in
            rw told.0 (record {
              found = λ k. rw told.1 (map_get-add reg.reports index k a);
              listed = rw (told.2, absent) refl;
            })
      ]

  create_report-IsOutcome :
      (report_type : ℕ) (share : Share C) (alloc : Option ℕ) (reg : Registry C)
      → IsMap reg.reports
      → map_get reg.reports share.index ≡ none
      → ((a : ℕ) → alloc ≡ some a → contains a (items_of reg.reports_arr) ≡ false)
      → IsOutcome reg share.index (create_report report_type share true reg alloc)
  unfolding create_report enter_array array_add
  create_report-IsOutcome report_type share none reg v absent new = record {
    same_reports = λ k. refl;
    same_items = refl;
    same_size = refl;
  }
  create_report-IsOutcome report_type share (some a) reg v absent new =
      tell_tables-IsOutcome reg share.index a (new_report report_type share) v absent (new a refl)

  -- Asking for a report of any base type, when the array can grow and a new report has an address
  -- that is not listed, either returns a report that is then found under the share's index, and is
  -- listed at the end if it is new, or returns none and leaves what is found and what is listed as
  -- it was.
  pub regenerate-IsOutcome :
      (report_type : ℕ) (share : Share C) (alloc : Option ℕ) (reg : Registry C)
      → IsMap reg.reports
      → ((a : ℕ) → alloc ≡ some a → contains a (items_of reg.reports_arr) ≡ false)
      → IsOutcome reg share.index (regenerate report_type share alloc true reg)
  unfolding regenerate
  regenerate-IsOutcome report_type share alloc reg v new =
      elim (Option-cases (map_get reg.reports share.index)) [
        | inl absent ↦
            rw (regenerate, absent)
              (create_report-IsOutcome report_type share alloc reg v absent new)
        | inr (b, there) ↦
            rw (regenerate, there)
              (record {
                found = λ k. elim (Bool-cases (str_eq share.index k)) [
                  | inl same ↦ rw (same, ← (str_eq_iff share.index k).0 same) there
                  | inr other ↦ rw other refl
                ];
                listed = rw there refl;
              })
      ]
