-- ===== src/Dictionary/Intern.antt =====
-- What `pinba_dictionary_intern_rdlock` of src/pinba_dictionary.cc does to the dictionary.
use pinba_engine.Common.{
  Bool-cases, CString, Option, Option-cases, add64, ap, arith, false, fresh, if◌then◌else◌, inl,
  inr, length, min, nat_eq, none, refl, some, str_eq, str_eq_iff, str_eq_refl, string_eq, sub64,
  sym, take, true, ℕ, ◌<◌, ◌==◌, ◌^◌, ◌∙◌, ◌≡◌, ◌⊎◌,
}
use pinba_engine.Map.{Map, map_add, map_get, map_get-add, map_try_add-cases}
use pinba_engine.Dictionary.{
  Budget, Dictionary, Memory, Word, add_word, c_str, charge, intern_rdlock, intern_wrlock, lookup,
  over_budget, release, retain, set_references,
}
use pinba_engine.Dictionary.Counts.{map_get-set_references}

-- The references of a word that may not be there.
abbrev pub references_of : Option Word → ℕ
references_of none = 0
references_of (some w) = w.references

-- A call that returns the word of `key` has counted one reference more to it and changed no other
-- word; one that returns null has changed nothing.
pub record Interned (key : CString) (before after : Dictionary) : Type 0 where
  pub word : Word
  pub found : map_get after.words key ≡ some word
  pub referenced : word.references ≡ add64 (references_of (map_get before.words key)) 1
  pub others : (j : CString) → str_eq key j ≡ false → map_get after.words j ≡ map_get before.words j

pub data Answer (key : CString) (before : Dictionary) : Option CString × Dictionary → Type 0 where
  rejected : map_get before.words key ≡ none → Answer key before (none, before)
  interned : (after : Dictionary) → Interned key before after → Answer key before (some key, after)

retain-Interned :
    (key : CString) (d : Dictionary) (w : Word)
    → map_get d.words key ≡ some w
    → Interned key d (retain key d)
unfolding retain
retain-Interned key d w e = record {
  word = record w { references = add64 w.references 1 };
  found = map_get-set_references (λ n. add64 n 1) key key d.words ∙ rw (str_eq_refl key, e) refl;
  referenced = rw e refl;
  others = λ j other. map_get-set_references (λ n. add64 n 1) key j d.words ∙ rw other refl;
}

abbrev pub new_word : CString → ℕ → Word
new_word key copied = record { str = key; len = copied; references = 0 }

-- The dictionary after a new word.
abbrev pub with_word : CString → ℕ → Dictionary → Dictionary
with_word key copied d = record {
  words = map_add true d.words key (new_word key copied);
  words_live = add64 d.words_live 1;
  words_bytes = add64 d.words_bytes (charge copied);
}

-- The addition either fails or is the one of `pinba_map_add`.
pub add_word-cases :
    (memory : Memory) (key : CString) (copied : ℕ) (d : Dictionary)
    → map_get d.words key ≡ none
    → (add_word memory key copied d ≡ (none, d))
      ⊎ (add_word memory key copied d ≡ (some key, with_word key copied d))
unfolding add_word
add_word-cases memory key copied d e =
    elim (map_try_add-cases memory.map_ok memory.key_ok d.words key (new_word key copied) e) [
      | inl failed ↦ inl (rw failed (ground arith))
      | inr added ↦ elim (Bool-cases memory.word_ok) [
        | inl made ↦ inr (rw (added, made) refl)
        | inr not_made ↦ inl (rw not_made refl)
      ]
    ]

-- The new word, with its first reference.
with_word-Interned :
    (key : CString) (copied : ℕ) (d : Dictionary)
    → map_get d.words key ≡ none
    → Interned key d (retain key (with_word key copied d))
with_word-Interned key copied d e =
    let there : map_get (with_word key copied d).words key ≡ some (new_word key copied) =
      map_get-add d.words key key (new_word key copied) ∙ rw (str_eq_refl key) refl in
    let h = retain-Interned key (with_word key copied d) (new_word key copied) there in
    record {
      word = h.word;
      found = h.found;
      referenced = h.referenced ∙ rw (there, e) refl;
      others = λ j other.
          h.others j other ∙ map_get-add d.words key j (new_word key copied) ∙ rw other refl;
    }

intern_wrlock-Answer :
    (memory : Memory) (budget : Budget) (key : CString) (copied : ℕ) (d : Dictionary)
    → Answer key d (intern_wrlock memory budget key copied d)
unfolding intern_wrlock
intern_wrlock-Answer memory budget key copied d = elim (Option-cases (map_get d.words key)) [
  | inr (w, e) ↦ rw (intern_wrlock, e) (interned (retain key d) (retain-Interned key d w e))
  | inl e ↦ elim (Bool-cases (over_budget budget copied d)) [
    | inl over ↦ rw (intern_wrlock, e, over) (rejected e)
    | inr within ↦ elim (add_word-cases memory key copied d e) [
      | inl failed ↦ rw (intern_wrlock, e, within, failed) (rejected e)
      | inr added ↦
          rw (intern_wrlock, e, within, added)
            (interned (retain key (with_word key copied d)) (with_word-Interned key copied d e))
    ]
  ]
]

-- `pinba_dictionary_intern_rdlock` returns either the word of its text, cut at 64 bytes and at a
-- NUL, with one reference more than before, or null with nothing changed. No other word changes. If
-- the word was there at first, nothing else has happened in between; otherwise this is seen from
-- the state that the other threads leave until the call has the write lock.
pub intern_rdlock-Answer :
    (meanwhile : Dictionary → Dictionary) (memory : Memory) (budget : Budget) (str : CString)
    (d : Dictionary)
    → let key = c_str (take (min (length str) 64) str) in
      Answer key
        (if fresh (map_get d.words key) == 1 then meanwhile d else d)
        (intern_rdlock meanwhile memory budget str d)
unfolding intern_rdlock
intern_rdlock-Answer meanwhile memory budget str d =
    let copied = min (length str) 64 in
    let key = c_str (take copied str) in
    elim (Option-cases (map_get d.words key)) [
      | inl e ↦ rw (intern_rdlock, e) (intern_wrlock-Answer memory budget key copied (meanwhile d))
      | inr (w, e) ↦ rw (intern_rdlock, e) (interned (retain key d) (retain-Interned key d w e))
    ]

-- `pinba_dictionary_lookup` returns the word of its text, with one reference more than before, or
-- null with nothing changed if there is none. No other word changes.
pub lookup-Answer : (str : CString) (d : Dictionary) → Answer str d (lookup str d)
unfolding lookup
lookup-Answer str d = elim (Option-cases (map_get d.words str)) [
  | inl e ↦ rw (lookup, e) (rejected e)
  | inr (w, e) ↦ rw (lookup, e) (interned (retain str d) (retain-Interned str d w e))
]

set_references_absent :
    (f : ℕ → ℕ) (key : CString) (words : Map Word)
    → map_get words key ≡ none
    → set_references f key words ≡ words
unfolding set_references
set_references_absent f key words e = rw (set_references, e) refl

-- Giving a reference back undoes taking it, if the word's count fits 64 bits: every entry is as it
-- was.
pub release-retain :
    (key j : CString) (d : Dictionary)
    → ((w : Word) → map_get d.words key ≡ some w → w.references < 2 ^ 64)
    → map_get (release key (retain key d)).words j ≡ map_get d.words j
unfolding release retain
release-retain key j d fits =
    let taken = map_get-set_references (λ n. add64 n 1) key j d.words in
    let given =
      map_get-set_references (λ n. sub64 n 1) key j (set_references (λ n. add64 n 1) key d.words) in
    let at_key = map_get-set_references (λ n. add64 n 1) key key d.words in
    elim (Bool-cases (str_eq key j)) [
      | inr other ↦ rw (given, other, taken, other) refl
      | inl same ↦ elim (Option-cases (map_get d.words key)) [
        | inl e ↦
            rw
              (
                set_references_absent (λ n. add64 n 1) key d.words e,
                set_references_absent (λ n. sub64 n 1) key d.words e,
              )
              refl
        | inr (w, e) ↦
            let back : sub64 (add64 w.references 1) 1 ≡ w.references = omega (arith, fits w e) in
            let here : map_get d.words j ≡ some w =
              ap (map_get d.words) (sym ((str_eq_iff key j).0 same)) ∙ e in
            rw (given, same, at_key, str_eq_refl key, e, back, here) refl
      ]
    ]
