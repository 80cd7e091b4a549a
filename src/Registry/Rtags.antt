-- ===== src/Registry/Rtags.antt =====
-- `pinba_regenerate_rtag_info` and the functions of the other request tag reports, src/ha_pinba.cc.
-- A report holds a reference to the word of each of its tags, and to the words of its conditions on
-- tags; all are given back when the report is not made. The words lock is held throughout, or what
-- other threads do while `pinba_dictionary_intern_rdlock` gives it up is left out.
use pinba_engine.Common.{
  Bool, CString, List, Option, [], drop, false, if◌then◌else◌, length, ltb, ltb_ℤ, map, nat_eq,
  none, not, pos, some, str_eq, string_eq, take, true, ℕ, ◌&&◌, ◌∷◌,
}
use pinba_engine.Map.{map_add, map_get}
use pinba_engine.Lmap.{lmap_add, lmap_delete}
use pinba_engine.Dictionary.{Budget, Dictionary, Memory, intern_rdlock, lookup, release}
use pinba_engine.Registry.{NewReport, Registry, Share, array_add, new_report, update_report_tables}

-- A word that is found is given back if a later one is not.
unfoldable pub keep_word :
    Dictionary
    → Option CString
    → Option (List CString) × Dictionary
    → Option (List CString) × Dictionary
keep_word d none rest = (none, d)
keep_word d (some key) (none, d') = (none, release key d')
keep_word d (some key) (some keys, d') = (some (key ∷ keys), d')

unfoldable pub lookup_words : List CString → Dictionary → Option (List CString) × Dictionary
unfolding keep_word
lookup_words [] d = (some [], d)
lookup_words (name ∷ names) d =
    let (word, d') = lookup name d in keep_word d' word (lookup_words names d')

-- A condition of a table, and which allocations succeed when its words are entered.
pub record Condition : Type 0 where
  pub cond_name : CString
  pub cond_value : CString
  pub name_memory : Memory
  pub value_memory : Memory

-- PINBA_TAG_PARAM_PREFIX, `tag.`
abbrev pub tag_prefix : CString
tag_prefix = b't' ∷ b'a' ∷ b'g' ∷ b'.' ∷ []

unfoldable pub is_tag_condition : CString → Bool
is_tag_condition name = ltb 4 (length name) && str_eq (take 4 name) tag_prefix

-- The words of the conditions on tags, in `pinba_parse_conditions`: null where the dictionary has
-- no room. The other conditions have none.
unfoldable pub parse_conditions :
    Budget
    → List Condition
    → Dictionary
    → (List (Option CString) × List (Option CString)) × Dictionary
unfolding is_tag_condition
parse_conditions budget [] d = (([], []), d)
parse_conditions budget (c ∷ conditions) d = elim (is_tag_condition c.cond_name) [
  | false ↦ parse_conditions budget conditions d
  | true ↦
      let (name, d1) = intern_rdlock (λ d. d) c.name_memory budget (drop 4 c.cond_name) d in
      let (value, d2) = intern_rdlock (λ d. d) c.value_memory budget c.cond_value d1 in
      let ((names, values), d3) = parse_conditions budget conditions d2 in
      ((name ∷ names, value ∷ values), d3)
]

-- `pinba_word_release`, which accepts null.
unfoldable pub word_release : Option CString → Dictionary → Dictionary
word_release none d = d
word_release (some key) d = release key d

unfoldable pub words_release : List (Option CString) → Dictionary → Dictionary
unfolding word_release
words_release [] d = d
words_release (word ∷ words) d = words_release words (word_release word d)

-- The words that a report holds: those of its tags, and `cond.tag_names` and `cond.tag_values`.
pub record ReportWords : Type 0 where
  pub tags : List CString
  pub cond_names : List (Option CString)
  pub cond_values : List (Option CString)

-- `pinba_std_report_dtor`, and then the release of the tags.
unfoldable pub release_all : ReportWords → Dictionary → Dictionary
unfolding words_release
release_all held d =
    words_release (map some held.tags)
      (words_release held.cond_values (words_release held.cond_names d))

module _ {C : Type 0} where
  -- `pinba_rtag_report_dtor(report, 0)`: the map and the array are not touched.
  unfoldable pub rtag_report_dtor :
      ReportWords → Registry C → ℕ → Dictionary → Registry C × Dictionary
  unfolding release_all
  rtag_report_dtor held reg report d =
      (record reg { memory = (lmap_delete reg.memory report).1 }, release_all held d)

  unfoldable pub rtag_tell_tables :
      ReportWords → Registry C → ℕ → CString → Dictionary → Option ℕ × (Registry C × Dictionary)
  unfolding rtag_report_dtor
  rtag_tell_tables held reg report index d =
      let (known, reg') = update_report_tables reg report index in
      if known then (some report, (reg', d)) else (none, rtag_report_dtor held reg' report d)

  unfoldable pub rtag_enter_array :
      Bool
      → ReportWords
      → Registry C
      → ℕ
      → CString
      → Dictionary
      → Option ℕ × (Registry C × Dictionary)
  unfolding rtag_tell_tables
  rtag_enter_array grows held reg report index d =
      let (status, array) = array_add grows reg.reports_arr report in
      if ltb_ℤ status (pos 0)
      then (none, rtag_report_dtor held (record reg { reports_arr = array }) report d)
      else rtag_tell_tables held (record reg { reports_arr = array }) report index d

  unfoldable pub new_rtag_report : ℕ → Bool → List CString → Share C → NewReport C
  new_rtag_report report_type indexed keys share = record (new_report report_type share) {
    tag_words = keys;
    indexed = indexed;
  }

  module _ (report_type : ℕ) (indexed : Bool) (budget : Budget) (conditions : List Condition)
      (share : Share C) (index_ok grows : Bool) where
    -- With the words of the conditions: `index_ok` is whether the buffer for an index, that the
    -- reports by any number of tags have, could be made.
    unfoldable pub register_rtag_report :
        Registry C
        → ℕ
        → List CString
        → (List (Option CString) × List (Option CString)) × Dictionary
        → Option ℕ × (Registry C × Dictionary)
    unfolding rtag_enter_array new_rtag_report
    register_rtag_report reg report keys ((names, values), d) =
        let held : ReportWords = record { tags = keys; cond_names = names; cond_values = values } in
        if not index_ok
        then (none, (reg, release_all held d))
        else rtag_enter_array grows held
            (record reg {
              reports = map_add true reg.reports share.index report;
              memory = lmap_add reg.memory report (new_rtag_report report_type indexed keys share);
            })
            report share.index d

    -- `alloc`: the address that `calloc` gives, `none` if an allocation before the conditions
    -- fails.
    unfoldable pub create_rtag_report :
        Registry C
        → Option ℕ
        → Option (List CString) × Dictionary
        → Option ℕ × (Registry C × Dictionary)
    unfolding register_rtag_report parse_conditions
    create_rtag_report reg alloc (none, d) = (none, (reg, d))
    create_rtag_report reg none (some keys, d) = (none, (reg, words_release (map some keys) d))
    create_rtag_report reg (some report) (some keys, d) =
        register_rtag_report reg report keys (parse_conditions budget conditions d)

    unfoldable pub regenerate_rtag :
        List CString → Option ℕ → Registry C → Dictionary → Option ℕ × (Registry C × Dictionary)
    unfolding create_rtag_report lookup_words
    regenerate_rtag names alloc reg d = elim (map_get reg.reports share.index) [
      | some report ↦ (some report, (reg, d))
      | none ↦ create_rtag_report reg alloc (lookup_words names d)
    ]

  module _ (budget : Budget) (conditions : List Condition) (share : Share C) where
    unfoldable pub regenerate_rtag_info :
        Bool → Option ℕ → Registry C → Dictionary → Option ℕ × (Registry C × Dictionary)
    unfolding regenerate_rtag
    regenerate_rtag_info grows =
        regenerate_rtag 36 false budget conditions share true grows (take 1 share.params)

    unfoldable pub regenerate_rtag2_info :
        Bool → Option ℕ → Registry C → Dictionary → Option ℕ × (Registry C × Dictionary)
    unfolding regenerate_rtag
    regenerate_rtag2_info grows =
        regenerate_rtag 37 false budget conditions share true grows (take 2 share.params)

    unfoldable pub regenerate_rtag_n_info :
        Bool → Bool → Option ℕ → Registry C → Dictionary → Option ℕ × (Registry C × Dictionary)
    unfolding regenerate_rtag
    regenerate_rtag_n_info index_ok grows =
        regenerate_rtag 38 false budget conditions share index_ok grows share.params

    unfoldable pub regenerate_rtag_report :
        Bool → Option ℕ → Registry C → Dictionary → Option ℕ × (Registry C × Dictionary)
    unfolding regenerate_rtag
    regenerate_rtag_report grows =
        regenerate_rtag 39 true budget conditions share true grows (take 1 share.params)

    unfoldable pub regenerate_rtag2_report :
        Bool → Option ℕ → Registry C → Dictionary → Option ℕ × (Registry C × Dictionary)
    unfolding regenerate_rtag
    regenerate_rtag2_report grows =
        regenerate_rtag 40 true budget conditions share true grows (take 2 share.params)

    unfoldable pub regenerate_rtag_n_report :
        Bool → Bool → Option ℕ → Registry C → Dictionary → Option ℕ × (Registry C × Dictionary)
    unfolding regenerate_rtag
    regenerate_rtag_n_report index_ok grows =
        regenerate_rtag 41 true budget conditions share index_ok grows share.params
