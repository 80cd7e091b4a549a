-- ===== src/Registry/Words.antt =====
-- The words of a request tag report that is not made are given back: src/ha_pinba.cc.
use pinba_engine.Common.{
  Bool, Bool-cases, CString, List, Option, Option-cases, [], arith, drop, false, fresh,
  if◌then◌else◌, inl, inr, length, ltb_ℤ, map, min, nat_eq, none, pos, refl, some, string_eq, subst,
  take, true, ℕ, ◌+◌, ◌<◌, ◌==◌, ◌^◌, ◌∷◌, ◌≡◌,
}
use pinba_engine.Map.{map_get}
use pinba_engine.Lmap.{}
use pinba_engine.Dictionary.{Budget, Dictionary, Memory, Word, c_str, intern_rdlock, lookup}
use pinba_engine.Dictionary.Counts.{}
use pinba_engine.Dictionary.Intern.{
  Answer, intern_rdlock-Answer, interned, lookup-Answer, references_of, rejected,
}
use pinba_engine.Registry.{Registry, Share, array_add, update_report_tables}
use pinba_engine.Registry.Rtags.{
  Condition, ReportWords, create_rtag_report, is_tag_condition, keep_word, lookup_words,
  parse_conditions, regenerate_rtag, register_rtag_report, release_all, rtag_enter_array,
  rtag_report_dtor, rtag_tell_tables, word_release,
}
use pinba_engine.Registry.Held.{
  Answer-Holds, Holds, Holds-cast, Interned-Holds, IsThere, times, times_in, word_release-Holds,
  words_release-Holds,
}

-- No word has gone, and each has as many references as before: one that is new has none.
pub record SameCounts (d d' : Dictionary) : Type 0 where
  pub kept : (j : CString) → IsThere d j → IsThere d' j
  pub counts :
      (j : CString) → references_of (map_get d'.words j) ≡ references_of (map_get d.words j)

-- The counts are 64-bit numbers.
abbrev pub CountsFit : Dictionary → Type 0
CountsFit d = (k : CString) (w : Word) → map_get d.words k ≡ some w → w.references < 2 ^ 64

references-fit :
    (d : Dictionary) (j : CString) → CountsFit d → references_of (map_get d.words j) < 2 ^ 64
references-fit d j fit = elim (Option-cases (map_get d.words j)) [
  | inl e ↦ rw e (omega arith)
  | inr (w, e) ↦ rw e (fit j w e)
]

Holds-nothing : (d : Dictionary) → CountsFit d → Holds (λ j. 0) d d
Holds-nothing d fit = record {
  there = λ j p. absurd (omega arith);
  kept = λ j p. p;
  counts = λ j. omega (arith, references-fit d j fit);
}

Holds-SameCounts : (d d' : Dictionary) → CountsFit d → Holds (λ j. 0) d d' → SameCounts d d'
Holds-SameCounts d d' fit h = record {
  kept = h.kept;
  counts = λ j. omega (arith, h.counts j, references-fit d j fit);
}

-- What the search for the words of the tags holds besides what was held before.
abbrev Found : (CString → ℕ) → Dictionary → Option (List CString) × Dictionary → Type 0
Found held d0 (none, d) = Holds held d0 d
Found held d0 (some keys, d) = Holds (λ j. times_in j (map some keys) + held j) d0 d

keep_word-Found :
    (key : CString) (held : CString → ℕ) (d0 d : Dictionary)
    (found : Option (List CString) × Dictionary)
    → Found (λ j. times j (some key) + held j) d0 found
    → Found held d0 (keep_word d (some key) found)
unfolding keep_word times_in word_release
keep_word-Found key held d0 d (none, d') h = word_release-Holds (some key) held d0 d' h
keep_word-Found key held d0 d (some keys, d') h =
    Holds-cast _ (λ j. times_in j (map some (key ∷ keys)) + held j) d0 d' (λ j. omega arith) h

lookup_words-step :
    (names : List CString) (name : CString) (held : CString → ℕ) (d0 d : Dictionary)
    (r : Option CString × Dictionary)
    → ((held' : CString → ℕ) (d' : Dictionary)
        → Holds held' d0 d'
        → Found held' d0 (lookup_words names d'))
    → Answer name d r
    → Holds held d0 d
    → Found held d0 (keep_word r.1 r.0 (lookup_words names r.1))
unfolding keep_word
lookup_words-step names name held d0 d _ rest (rejected absent) h = h
lookup_words-step names name held d0 d _ rest (interned d' i) h =
    unfold keep_word in
    keep_word-Found name held d0 d' (lookup_words names d')
      (rest (λ j. times j (some name) + held j) d' (Interned-Holds name d d' i held d0 h))

lookup_words-Found :
    (names : List CString) (held : CString → ℕ) (d0 d : Dictionary)
    → Holds held d0 d
    → Found held d0 (lookup_words names d)
unfolding lookup_words times_in
lookup_words-Found [] held d0 d h = Holds-cast held _ d0 d (λ j. omega arith) h
lookup_words-Found (name ∷ names) held d0 d h =
    lookup_words-step names name held d0 d (lookup name d)
      (λ held' d'. lookup_words-Found names held' d0 d') (lookup-Answer name d) h

if-same : {A : Type 0} (b : Bool) (x : A) → (if b then x else x) ≡ x
if-same true x = refl
if-same false x = refl

interning :
    (memory : Memory) (budget : Budget) (str : CString) (held : CString → ℕ) (d0 d : Dictionary)
    → Holds held d0 d
    → let r = intern_rdlock (λ d. d) memory budget str d in Holds (λ j. times j r.0 + held j) d0 r.1
interning memory budget str held d0 d h =
    let key = c_str (take (min (length str) 64) str) in
    Answer-Holds key d d0 held (intern_rdlock (λ d. d) memory budget str d)
      (subst (λ before. Answer key before (intern_rdlock (λ d. d) memory budget str d))
        (if-same (fresh (map_get d.words key) == 1) d)
        (intern_rdlock-Answer (λ d. d) memory budget str d))
      h

-- What `pinba_parse_conditions` holds besides.
abbrev Parsed :
    (CString → ℕ)
    → Dictionary
    → (List (Option CString) × List (Option CString)) × Dictionary
    → Type 0
Parsed held d0 ((names, values), d) =
    Holds (λ j. times_in j names + (times_in j values + held j)) d0 d

parse_conditions-Parsed :
    (budget : Budget) (conditions : List Condition) (held : CString → ℕ) (d0 d : Dictionary)
    → Holds held d0 d
    → Parsed held d0 (parse_conditions budget conditions d)
unfolding parse_conditions times_in
parse_conditions-Parsed budget [] held d0 d h = Holds-cast held _ d0 d (λ j. omega arith) h
parse_conditions-Parsed budget (c ∷ conditions) held d0 d h =
    elim (Bool-cases (is_tag_condition c.cond_name)) [
      | inr other ↦
          rw (parse_conditions, other) (parse_conditions-Parsed budget conditions held d0 d h)
      | inl tag ↦
          let r1 = intern_rdlock (λ d. d) c.name_memory budget (drop 4 c.cond_name) d in
          let r2 = intern_rdlock (λ d. d) c.value_memory budget c.cond_value r1.1 in
          let h1 = interning c.name_memory budget (drop 4 c.cond_name) held d0 d h in
          let h2 = interning c.value_memory budget c.cond_value _ d0 r1.1 h1 in
          rw (parse_conditions, tag)
            (Holds-cast _ _ d0 _ (λ j. omega arith)
              (parse_conditions-Parsed budget conditions _ d0 r2.1 h2))
    ]

-- Releasing what a report holds leaves nothing held.
release_all-SameCounts :
    (held : ReportWords) (d0 d : Dictionary)
    → CountsFit d0
    → Holds
        (λ j.
          times_in j held.cond_names
          + (times_in j held.cond_values + (times_in j (map some held.tags) + 0)))
        d0
        d
    → SameCounts d0 (release_all held d)
unfolding release_all
release_all-SameCounts held d0 d fit h = Holds-SameCounts d0 _ fit (
    words_release-Holds (map some held.tags) (λ j. 0) d0 _
      (words_release-Holds held.cond_values _ d0 _ (words_release-Holds held.cond_names _ d0 d h)))

-- What a function did to the words, if it has no report to return.
abbrev pub LeavesWords : {C : Type 0} → Dictionary → Option ℕ × (Registry C × Dictionary) → Type 0
LeavesWords d (none, (reg, d')) = SameCounts d d'
LeavesWords d (some report, (reg, d')) = Unit

module _ {C : Type 0} where
  rtag_tell_tables-LeavesWords :
      (held : ReportWords) (reg : Registry C) (report : ℕ) (index : CString) (d d' : Dictionary)
      → SameCounts d (release_all held d')
      → LeavesWords d (rtag_tell_tables held reg report index d')
  unfolding rtag_tell_tables rtag_report_dtor
  rtag_tell_tables-LeavesWords held reg report index d d' back =
      elim (Bool-cases (update_report_tables reg report index).0) [
        | inl known ↦ rw (rtag_tell_tables, known) tt
        | inr unknown ↦ rw (rtag_tell_tables, unknown) back
      ]

  rtag_enter_array-LeavesWords :
      (grows : Bool) (held : ReportWords) (reg : Registry C) (report : ℕ) (index : CString)
      (d d' : Dictionary)
      → SameCounts d (release_all held d')
      → LeavesWords d (rtag_enter_array grows held reg report index d')
  unfolding rtag_enter_array rtag_report_dtor
  rtag_enter_array-LeavesWords grows held reg report index d d' back =
      elim (Bool-cases (ltb_ℤ (array_add grows reg.reports_arr report).0 (pos 0))) [
        | inl failed ↦ rw (rtag_enter_array, failed) back
        | inr entered ↦
            rw (rtag_enter_array, entered)
              (rtag_tell_tables-LeavesWords held
                (record reg { reports_arr = (array_add grows reg.reports_arr report).1 }) report
                index d d' back)
      ]

  module _ (report_type : ℕ) (indexed : Bool) (budget : Budget) (conditions : List Condition)
      (share : Share C) (index_ok grows : Bool) (reg : Registry C) where
    register_rtag_report-LeavesWords :
        (report : ℕ) (keys : List CString) (d : Dictionary)
        (parsed : (List (Option CString) × List (Option CString)) × Dictionary)
        → CountsFit d
        → Parsed (λ j. times_in j (map some keys) + 0) d parsed
        → LeavesWords d (
            register_rtag_report report_type indexed budget conditions share index_ok grows reg
              report keys parsed)
    unfolding register_rtag_report
    register_rtag_report-LeavesWords report keys d ((names, values), d') fit h =
        let held : ReportWords = record { tags = keys; cond_names = names; cond_values = values } in
        let back = release_all-SameCounts held d d' fit h in
        elim (Bool-cases index_ok) [
          | inr no_index ↦ rw no_index back
          | inl made ↦
              rw made (rtag_enter_array-LeavesWords grows held _ report share.index d d' back)
        ]

    create_rtag_report-LeavesWords :
        (alloc : Option ℕ) (d : Dictionary) (found : Option (List CString) × Dictionary)
        → CountsFit d
        → Found (λ j. 0) d found
        → LeavesWords d (
            create_rtag_report report_type indexed budget conditions share index_ok grows reg alloc
              found)
    unfolding create_rtag_report
    create_rtag_report-LeavesWords alloc d (none, d') fit h = Holds-SameCounts d d' fit h
    create_rtag_report-LeavesWords none d (some keys, d') fit h =
        Holds-SameCounts d _ fit (words_release-Holds (map some keys) (λ j. 0) d d' h)
    create_rtag_report-LeavesWords (some report) d (some keys, d') fit h =
        register_rtag_report-LeavesWords report keys d (parse_conditions budget conditions d') fit
          (parse_conditions-Parsed budget conditions _ d d' h)

    -- When a function that makes a request tag report returns no report, whether a tag is unknown,
    -- memory is out, the array is full or the table is not known, no word of the dictionary has
    -- gone and each has as many references as before; one that was entered for a condition has
    -- none. The counts before are below 2^64, and no other thread changes the dictionary meanwhile.
    pub regenerate_rtag-LeavesWords :
        (names : List CString) (alloc : Option ℕ) (d : Dictionary)
        → CountsFit d
        → LeavesWords d (
            regenerate_rtag report_type indexed budget conditions share index_ok grows names alloc
              reg d)
    unfolding regenerate_rtag
    regenerate_rtag-LeavesWords names alloc d fit =
        elim (Option-cases (map_get reg.reports share.index)) [
          | inr (report, there) ↦ rw (regenerate_rtag, there) tt
          | inl absent ↦
              rw (regenerate_rtag, absent)
                (create_rtag_report-LeavesWords alloc d (lookup_words names d) fit
                  (lookup_words-Found names (λ j. 0) d d (Holds-nothing d fit)))
        ]
