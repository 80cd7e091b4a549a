-- ===== src/Dictionary/Budgets.antt =====
-- The words of src/pinba_dictionary.cc stay within their budget, and well-formed.
use pinba_engine.Common.{
  Bool-cases, CString, Option-cases, [], add64, arith, false, inl, inr, length, length-take, min,
  nat_eq, none, refl, some, str_eq, str_eq_iff, string_eq, sym, take, true, ℕ, ◌+◌, ◌<◌, ◌∙◌, ◌∷◌,
  ◌≡◌, ◌≤◌,
}
use pinba_engine.Map.{map_add, map_add-IsMap, map_count, map_count-add, map_get, map_get-add}
use pinba_engine.Dictionary.{
  Budget, Dictionary, Memory, Word, c_str, charge, intern_rdlock, intern_wrlock, over_budget,
  retain, tag_value_size,
}
use pinba_engine.Dictionary.Counts.{
  IsDictionary, IsWord, bytes_of, bytes_of-add, changed-IsDictionary, count-set_references,
}
use pinba_engine.Dictionary.Intern.{add_word-cases, new_word, with_word}

-- A limit of 0 does not count.
pub record IsWithin (budget : Budget) (d : Dictionary) : Type 0 where
  pub words_within : 0 < budget.max_words → map_count d.words ≤ budget.max_words
  pub bytes_within : 0 < budget.max_bytes → d.words_bytes ≤ budget.max_bytes

abbrev pub IsHealthy : Budget → Dictionary → Type 0
IsHealthy budget d = IsDictionary d × IsWithin budget d

length-c_str : (s : CString) → length (c_str s) ≤ length s
unfolding c_str
length-c_str [] = omega arith
length-c_str (c ∷ s) = ground (arith, length-c_str s)

retain-IsHealthy :
    (budget : Budget) (key : CString) (d : Dictionary)
    → IsHealthy budget d
    → IsHealthy budget (retain key d)
unfolding retain
retain-IsHealthy budget key d (v, b) = (
  changed-IsDictionary (λ n. add64 n 1) key d v,
  record {
    words_within = rw (count-set_references (λ n. add64 n 1) key d.words).0 b.words_within;
    bytes_within = b.bytes_within;
  },
)

with_word-IsWord :
    (key j : CString) (copied : ℕ) (d : Dictionary) (w : Word)
    → IsDictionary d
    → length key ≤ copied
    → copied < tag_value_size
    → map_get (with_word key copied d).words j ≡ some w
    → IsWord j w
with_word-IsWord key j copied d w v k c e = elim (Bool-cases (str_eq key j)) [
  | inl same ↦
      let is_new : some (new_word key copied) ≡ some w =
        sym (map_get-add d.words key j (new_word key copied) ∙ rw same refl) ∙ e in
      let at_key = (str_eq_iff key j).0 same in
      record { is_key = ground arith; len_fits = ground arith; str_fits = ground arith }
  | inr other ↦
      v.are_words j w (sym (map_get-add d.words key j (new_word key copied) ∙ rw other refl) ∙ e)
]

with_word-IsHealthy :
    (budget : Budget) (key : CString) (copied : ℕ) (d : Dictionary)
    → IsHealthy budget d
    → length key ≤ copied
    → copied < tag_value_size
    → map_get d.words key ≡ none
    → over_budget budget copied d ≡ false
    → IsHealthy budget (with_word key copied d)
unfolding over_budget
with_word-IsHealthy budget key copied d (v, b) k c e within =
    let one_more : map_count (map_add true d.words key (new_word key copied))
        ≡ map_count d.words + 1 =
      map_count-add d.words key (new_word key copied) ∙ rw e refl in
    let more_bytes : bytes_of (map_add true d.words key (new_word key copied))
        ≡ bytes_of d.words + charge copied =
      ground (arith, bytes_of-add d.words key (new_word key copied), e) in
    (
      record {
        is_map = map_add-IsMap d.words key (new_word key copied) v.is_map;
        are_words = λ j w f. with_word-IsWord key j copied d w v k c f;
        live = omega (arith, v.live, one_more);
        bytes = omega (arith, v.bytes, more_bytes);
      },
      record { words_within = λ h. ground (arith, one_more); bytes_within = λ h. ground arith },
    )

intern_wrlock-IsHealthy :
    (memory : Memory) (budget : Budget) (key : CString) (copied : ℕ) (d : Dictionary)
    → IsHealthy budget d
    → length key ≤ copied
    → copied < tag_value_size
    → IsHealthy budget (intern_wrlock memory budget key copied d).1
unfolding intern_wrlock
intern_wrlock-IsHealthy memory budget key copied d h k c =
    elim (Option-cases (map_get d.words key)) [
      | inr (w, e) ↦ rw (intern_wrlock, e) (retain-IsHealthy budget key d h)
      | inl e ↦ elim (Bool-cases (over_budget budget copied d)) [
        | inl over ↦ rw (intern_wrlock, e, over) h
        | inr within ↦ elim (add_word-cases memory key copied d e) [
          | inl failed ↦ rw (intern_wrlock, e, within, failed) h
          | inr added ↦
              rw (intern_wrlock, e, within, added)
                (retain-IsHealthy budget key (with_word key copied d)
                  (with_word-IsHealthy budget key copied d h k c e within))
        ]
      ]
    ]

-- Interning keeps the dictionary well-formed and within its budget, whatever allocations fail, if
-- the other threads keep it so while the call waits for the write lock.
pub intern_rdlock-IsHealthy :
    (meanwhile : Dictionary → Dictionary) (memory : Memory) (budget : Budget) (str : CString)
    (d : Dictionary)
    → ((d : Dictionary) → IsHealthy budget d → IsHealthy budget (meanwhile d))
    → IsHealthy budget d
    → IsHealthy budget (intern_rdlock meanwhile memory budget str d).1
unfolding intern_rdlock
intern_rdlock-IsHealthy meanwhile memory budget str d keeps h =
    let copied = min (length str) 64 in
    let key = c_str (take copied str) in
    elim (Option-cases (map_get d.words key)) [
      | inl e ↦
          rw (intern_rdlock, e)
            (intern_wrlock-IsHealthy memory budget key copied (meanwhile d) (keeps d h)
              (omega (arith, length-c_str (take copied str), length-take copied str)) (omega arith))
      | inr (w, e) ↦ rw (intern_rdlock, e) (retain-IsHealthy budget key d h)
    ]
