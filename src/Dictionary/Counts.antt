-- ===== src/Dictionary/Counts.antt =====
-- The invariant of the dictionary of src/pinba_dictionary.cc, and changes of a word's references.
use pinba_engine.Common.{
  Bool-cases, CString, Option-cases, [], arith, find, if◌then◌else◌, inl, inr, length, nat_eq, none,
  refl, some, str_eq, str_eq_iff, string_eq, sym, true, weigh, weigh-assign, weight_of, ℕ, ◌%◌, ◌+◌,
  ◌<◌, ◌^◌, ◌∙◌, ◌≡◌, ◌≤◌,
}
use pinba_engine.Map.{
  IsMap, Map, map_add, map_add-IsMap, map_count, map_count-add, map_get, map_get-add,
}
use pinba_engine.Dictionary.{Dictionary, Word, charge, set_references, tag_value_size}

abbrev pub word_charge : Word → ℕ
word_charge w = charge w.len

-- The bytes of all words.
unfoldable pub bytes_of : Map Word → ℕ
bytes_of none = 0
bytes_of (some m) = weigh word_charge m

-- An entry holds its key's text.
pub record IsWord (k : CString) (w : Word) : Type 0 where
  pub is_key : w.str ≡ k
  pub len_fits : w.len < tag_value_size
  pub str_fits : length w.str ≤ w.len

-- Every entry holds its key's text, and the gauges say how many words there are and how many bytes
-- they take, as 64-bit numbers.
pub record IsDictionary (d : Dictionary) : Type 0 where
  pub is_map : IsMap d.words
  pub are_words : (k : CString) (w : Word) → map_get d.words k ≡ some w → IsWord k w
  pub live : d.words_live ≡ map_count d.words % 2 ^ 64
  pub bytes : d.words_bytes ≡ bytes_of d.words % 2 ^ 64

pub bytes_of-add :
    (m : Map Word) (k : CString) (w : Word)
    → bytes_of (map_add true m k w) + weight_of word_charge (map_get m k)
      ≡ bytes_of m + word_charge w
unfolding bytes_of map_add map_get find weigh
bytes_of-add none k w = omega (arith, weigh-assign {K = CString} word_charge k w [])
bytes_of-add (some m) k w = ground (arith, weigh-assign word_charge k w m)

-- What a change of the references of one word leaves.
pub map_get-set_references :
    (f : ℕ → ℕ) (key j : CString) (words : Map Word)
    → map_get (set_references f key words) j ≡ (
        if str_eq key j
        then elim (map_get words key) [
          | none ↦ map_get words j
          | some w ↦ some (record w { references = f w.references })
        ]
        else map_get words j)
unfolding set_references
map_get-set_references f key j words = elim (Option-cases (map_get words key)) [
  | inl e ↦ rw (set_references, e) (ground arith)
  | inr (w, e) ↦
      rw (set_references, e) (map_get-add words key j (record w { references = f w.references }))
]

pub count-set_references :
    (f : ℕ → ℕ) (key : CString) (words : Map Word)
    → (map_count (set_references f key words) ≡ map_count words)
      × (bytes_of (set_references f key words) ≡ bytes_of words)
unfolding set_references
count-set_references f key words = elim (Option-cases (map_get words key)) [
  | inl e ↦ rw (set_references, e) (refl, refl)
  | inr (w, e) ↦
      let changed : Word = record w { references = f w.references } in
      rw (set_references, e)
        (
          ground (arith, map_count-add words key changed, e),
          ground (arith, bytes_of-add words key changed, e),
        )
]

set_references-IsMap :
    (f : ℕ → ℕ) (key : CString) (words : Map Word)
    → IsMap words
    → IsMap (set_references f key words)
unfolding set_references
set_references-IsMap f key words v = elim (Option-cases (map_get words key)) [
  | inl e ↦ rw (set_references, e) v
  | inr (w, e) ↦
      rw (set_references, e) (map_add-IsMap words key (record w { references = f w.references }) v)
]

changed-IsWord :
    (f : ℕ → ℕ) (key j : CString) (words : Map Word) (w : Word)
    → ((k : CString) (w : Word) → map_get words k ≡ some w → IsWord k w)
    → map_get (set_references f key words) j ≡ some w
    → IsWord j w
changed-IsWord f key j words w v e = elim (Bool-cases (str_eq key j)) [
  | inr other ↦ v j w (sym (map_get-set_references f key j words ∙ rw other refl) ∙ e)
  | inl same ↦ elim (Option-cases (map_get words key)) [
    | inl absent ↦ v j w (sym (map_get-set_references f key j words ∙ rw (same, absent) refl) ∙ e)
    | inr (old, there) ↦
        let changed : some (record old { references = f old.references }) ≡ some w =
          sym (map_get-set_references f key j words ∙ rw (same, there) refl) ∙ e in
        let h = v key old there in
        let k : key ≡ j = (str_eq_iff key j).0 same in
        record {
          is_key = ground arith;
          len_fits = ground (arith, h.len_fits);
          str_fits = ground (arith, h.str_fits);
        }
  ]
]

pub changed-IsDictionary :
    (f : ℕ → ℕ) (key : CString) (d : Dictionary)
    → IsDictionary d
    → IsDictionary (record d { words = set_references f key d.words })
changed-IsDictionary f key d v = record {
  is_map = set_references-IsMap f key d.words v.is_map;
  are_words = λ k w e. changed-IsWord f key k d.words w v.are_words e;
  live = rw (count-set_references f key d.words).0 v.live;
  bytes = rw (count-set_references f key d.words).1 v.bytes;
}
