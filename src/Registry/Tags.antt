-- ===== src/Registry/Tags.antt =====
-- `pinba_regenerate_tag_info` and the functions of the other tag reports, src/ha_pinba.cc. They
-- differ in the number of tags, in the type and functions of the report, and in whether its rows
-- are in a map of maps. An allocation that fails before the report is registered leaves no trace.
use pinba_engine.Common.{
  ==_iff, Bool, CString, List, Option, [], false, if◌then◌else◌, ltb_ℤ, nat_eq, none, pos, refl,
  some, str_eq_refl, string_eq, take, true, ℕ, ◌++◌, ◌+◌, ◌∙◌, ◌∷◌, ◌≡◌,
}
use pinba_engine.Map.{map_add, map_get, map_get-add}
use pinba_engine.Lmap.{IsLmap, lmap_add, lmap_add-IsLmap, lmap_delete, lmap_get, lmap_get-delete}
use pinba_engine.Registry.{
  NewReport, Registry, Share, array_add, items_of, new_report, update_report_tables,
}
use pinba_engine.Registry.Outcome.{tables_missing}

-- The identifiers of the tags that the parameters name, or nothing.
unfoldable pub tags_of_params : (CString → Option ℕ) → List CString → Option (List ℕ)
tags_of_params get_by_name [] = some []
tags_of_params get_by_name (name ∷ names) =
    let rest = tags_of_params get_by_name names in
    elim (get_by_name name) [
      | none ↦ none
      | some id ↦ elim rest [ none ↦ none | some ids ↦ some (id ∷ ids) ]
    ]

module _ {C : Type 0} where
  -- `pinba_tag_report_dtor(report, 0)`: the report is freed; the map and the array are not touched.
  unfoldable pub tag_report_dtor : Registry C → ℕ → Registry C
  tag_report_dtor reg report = record reg { memory = (lmap_delete reg.memory report).1 }

  unfoldable pub tag_tell_tables : Registry C → ℕ → CString → Option ℕ × Registry C
  unfolding tag_report_dtor
  tag_tell_tables reg report index =
      let (known, reg') = update_report_tables reg report index in
      if known then (some report, reg') else (none, tag_report_dtor reg' report)

  unfoldable pub tag_enter_array : Bool → Registry C → ℕ → CString → Option ℕ × Registry C
  unfolding tag_tell_tables
  tag_enter_array grows reg report index =
      let (status, array) = array_add grows reg.reports_arr report in
      if ltb_ℤ status (pos 0)
      then (none, tag_report_dtor (record reg { reports_arr = array }) report)
      else tag_tell_tables (record reg { reports_arr = array }) report index

  unfoldable pub new_tag_report : ℕ → Bool → List ℕ → Share C → NewReport C
  new_tag_report report_type indexed ids share = record (new_report report_type share) {
    tag_ids = ids;
    indexed = indexed;
  }

  module _ (report_type : ℕ) (indexed : Bool) (get_by_name : CString → Option ℕ) where
    unfoldable pub create_tag_report :
        Share C → Bool → Registry C → Option (List ℕ) → Option ℕ → Option ℕ × Registry C
    unfolding tag_enter_array new_tag_report
    create_tag_report share grows reg none alloc = (none, reg)
    create_tag_report share grows reg (some ids) none = (none, reg)
    create_tag_report share grows reg (some ids) (some report) =
        tag_enter_array grows
          (record reg {
            reports = map_add true reg.reports share.index report;
            memory = lmap_add reg.memory report (new_tag_report report_type indexed ids share);
          })
          report share.index

    unfoldable pub regenerate_tag :
        List CString → Share C → Option ℕ → Bool → Registry C → Option ℕ × Registry C
    unfolding create_tag_report tags_of_params
    regenerate_tag names share alloc grows reg = elim (map_get reg.reports share.index) [
      | some report ↦ (some report, reg)
      | none ↦ create_tag_report share grows reg (tags_of_params get_by_name names) alloc
    ]

  module _ (get_by_name : CString → Option ℕ) (share : Share C) where
    unfoldable pub regenerate_tag_info : Option ℕ → Bool → Registry C → Option ℕ × Registry C
    unfolding regenerate_tag
    regenerate_tag_info = regenerate_tag 27 false get_by_name (take 1 share.params) share

    unfoldable pub regenerate_tag2_info : Option ℕ → Bool → Registry C → Option ℕ × Registry C
    unfolding regenerate_tag
    regenerate_tag2_info = regenerate_tag 28 false get_by_name (take 2 share.params) share

    unfoldable pub regenerate_tag_report : Option ℕ → Bool → Registry C → Option ℕ × Registry C
    unfolding regenerate_tag
    regenerate_tag_report = regenerate_tag 30 true get_by_name (take 1 share.params) share

    unfoldable pub regenerate_tag2_report : Option ℕ → Bool → Registry C → Option ℕ × Registry C
    unfolding regenerate_tag
    regenerate_tag2_report = regenerate_tag 31 true get_by_name (take 2 share.params) share

    unfoldable pub regenerate_tag_report2 : Option ℕ → Bool → Registry C → Option ℕ × Registry C
    unfolding regenerate_tag
    regenerate_tag_report2 = regenerate_tag 33 true get_by_name (take 1 share.params) share

    unfoldable pub regenerate_tag2_report2 : Option ℕ → Bool → Registry C → Option ℕ × Registry C
    unfolding regenerate_tag
    regenerate_tag2_report2 = regenerate_tag 34 true get_by_name (take 2 share.params) share

    unfoldable pub regenerate_tag_n_info : Option ℕ → Bool → Registry C → Option ℕ × Registry C
    unfolding regenerate_tag
    regenerate_tag_n_info = regenerate_tag 29 false get_by_name share.params share

    unfoldable pub regenerate_tag_n_report : Option ℕ → Bool → Registry C → Option ℕ × Registry C
    unfolding regenerate_tag
    regenerate_tag_n_report = regenerate_tag 32 true get_by_name share.params share

    unfoldable pub regenerate_tag_n_report2 : Option ℕ → Bool → Registry C → Option ℕ × Registry C
    unfolding regenerate_tag
    regenerate_tag_n_report2 = regenerate_tag 35 true get_by_name share.params share

  -- When a tag report that is new, whose tags are known and for which there is memory, has no
  -- tables, none is returned, but the map keeps its address, at which the memory has been freed.
  pub regenerate_tag_dangles :
      (report_type : ℕ) (indexed : Bool) (get_by_name : CString → Option ℕ) (names : List CString)
      (share : Share C) (a : ℕ) (ids : List ℕ) (reg : Registry C)
      → map_get reg.reports share.index ≡ none
      → tags_of_params get_by_name names ≡ some ids
      → map_get reg.reports_to_tables share.index ≡ none
      → IsLmap reg.memory
      → let result = regenerate_tag report_type indexed get_by_name names share (some a) true reg in
        (result.0 ≡ none)
        × (map_get result.1.reports share.index ≡ some a)
        × (lmap_get result.1.memory a ≡ none)
  unfolding regenerate_tag create_tag_report tag_enter_array tag_tell_tables tag_report_dtor
      array_add
  regenerate_tag_dangles report_type indexed get_by_name names share a ids reg absent there missing
        v =
      let entered : Registry C = record reg {
        reports = map_add true reg.reports share.index a;
        memory = lmap_add reg.memory a (new_tag_report report_type indexed ids share);
        reports_arr = record {
          data_at = some (items_of reg.reports_arr ++ a ∷ []);
          size = reg.reports_arr.size + 1;
        };
      } in
      rw (regenerate_tag, absent, there, tables_missing entered a share.index missing)
        (
          refl,
          map_get-add reg.reports share.index share.index a ∙ rw (str_eq_refl share.index) refl,
          lmap_get-delete entered.memory a a
                (lmap_add-IsLmap reg.memory a (new_tag_report report_type indexed ids share) v)
              ∙ rw ((==_iff a a).1 refl) refl,
        )
