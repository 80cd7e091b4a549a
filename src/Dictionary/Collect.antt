-- ===== src/Dictionary/Collect.antt =====
-- What `pinba_dictionary_collect` of src/pinba_dictionary.cc sweeps, and the invariant under every
-- operation of the dictionary.
use pinba_engine.Common.{
  Bool-cases, CString, Distinct, List, Option, [], arith, false, find, if◌then◌else◌, inl, inr,
  length, nat_eq, none, refl, some, str_eq_iff, string_eq, sub64, sym, true, weigh, ℕ, ◌%◌, ◌+◌,
  ◌==◌, ◌^◌, ◌∙◌, ◌∷◌, ◌≡◌,
}
use pinba_engine.Map.{IsMap, Map, delete_if, map_count, map_delete_if, map_get}
use pinba_engine.Dictionary.Counts.{IsDictionary, bytes_of, word_charge}
use pinba_engine.Dictionary.{Dictionary, Word, charge, collect, unused}

-- A word survives as long as it is referenced.
unfoldable pub survivor : Option Word → Option Word
survivor none = none
survivor (some w) = if w.references == 0 then none else some w

abbrev swept : List (CString × Word) → ℕ × ℕ → ℕ × List (CString × Word) × (ℕ × ℕ)
swept m s = delete_if unused m s

kept_entry :
    (k : CString) (w : Word) (m : List (CString × Word)) (live bytes : ℕ)
    → (w.references == 0) ≡ false
    → swept ((k, w) ∷ m) (live, bytes)
      ≡ ((swept m (live, bytes)).0, (k, w) ∷ (swept m (live, bytes)).1, (swept m (live, bytes)).2)
unfolding delete_if unused
kept_entry k w m live bytes e = rw e refl

removed_entry :
    (k : CString) (w : Word) (m : List (CString × Word)) (live bytes : ℕ)
    → (w.references == 0) ≡ true
    → let s : ℕ × ℕ = (sub64 live 1, sub64 bytes (charge w.len)) in
      swept ((k, w) ∷ m) (live, bytes) ≡ ((swept m s).0 + 1, (swept m s).1, (swept m s).2)
unfolding delete_if unused
removed_entry k w m live bytes e = rw e refl

find-swept :
    (m : List (CString × Word)) (s : ℕ × ℕ) (k : CString)
    → Distinct m
    → find k (swept m s).1 ≡ survivor (find k m)
unfolding delete_if find survivor
find-swept [] s k d = refl
find-swept ((j, w) ∷ m) (live, bytes) k d = elim (Bool-cases (w.references == 0)) [
  | inr used ↦
      rw (kept_entry j w m live bytes used) (ground (arith, used, find-swept m (live, bytes) k d.1))
  | inl free_word ↦
      let s : ℕ × ℕ = (sub64 live 1, sub64 bytes (charge w.len)) in
      rw (removed_entry j w m live bytes free_word)
        (ground (arith, free_word, find-swept m s k d.1, str_eq_iff j k, d.0))
]

swept-Distinct : (m : List (CString × Word)) (s : ℕ × ℕ) → Distinct m → Distinct (swept m s).1
unfolding delete_if survivor
swept-Distinct [] s d = tt
swept-Distinct ((j, w) ∷ m) (live, bytes) d = elim (Bool-cases (w.references == 0)) [
  | inr used ↦
      rw (kept_entry j w m live bytes used)
        (find-swept m (live, bytes) j d.1 ∙ rw d.0 refl, swept-Distinct m (live, bytes) d.1)
  | inl free_word ↦
      let s : ℕ × ℕ = (sub64 live 1, sub64 bytes (charge w.len)) in
      rw (removed_entry j w m live bytes free_word) (swept-Distinct m s d.1)
]

-- The gauges, where `more` words of `rest` bytes are not in the list.
record Gauges (m : List (CString × Word)) (more rest : ℕ) (s : ℕ × ℕ) : Type 0 where
  pub live : s.0 ≡ (length m + more) % 2 ^ 64
  pub bytes : s.1 ≡ (weigh word_charge m + rest) % 2 ^ 64

swept-Gauges :
    (m : List (CString × Word)) (more rest : ℕ) (s : ℕ × ℕ)
    → Gauges m more rest s
    → Gauges (swept m s).1 more rest (swept m s).2
      × ((swept m s).0 + length (swept m s).1 ≡ length m)
unfolding delete_if weigh
swept-Gauges [] more rest s g = (g, refl)
swept-Gauges ((j, w) ∷ m) more rest (live, bytes) g = elim (Bool-cases (w.references == 0)) [
  | inr used ↦
      let h =
        swept-Gauges m (1 + more) (word_charge w + rest) (live, bytes)
          (record { live = g.live ∙ omega arith; bytes = g.bytes ∙ omega arith }) in
      rw (kept_entry j w m live bytes used) (
        record { live = h.0.live ∙ omega arith; bytes = h.0.bytes ∙ omega arith },
        omega (arith, h.1),
      )
  | inl free_word ↦
      let s : ℕ × ℕ = (sub64 live 1, sub64 bytes (charge w.len)) in
      let h =
        swept-Gauges m more rest s
          (record { live = omega (arith, g.live); bytes = omega (arith, g.bytes) }) in
      rw (removed_entry j w m live bytes free_word) (h.0, omega (arith, h.1))
]

-- A sweep of a well-formed dictionary removes exactly the words that nothing references, and
-- returns how many they were.
pub collect_lem :
    (d : Dictionary)
    → IsDictionary d
    → ((k : CString) → map_get (collect d).1.words k ≡ survivor (map_get d.words k))
      × ((collect d).0 + map_count (collect d).1.words ≡ map_count d.words)
unfolding collect map_delete_if map_get map_count survivor bytes_of
collect_lem d v = go d.words d.words_live d.words_bytes v.is_map v.live v.bytes
  where
    go :
        (words : Map Word) (live bytes : ℕ)
        → IsMap words
        → live ≡ map_count words % 2 ^ 64
        → bytes ≡ bytes_of words % 2 ^ 64
        → let d : Dictionary = record { words = words; words_live = live; words_bytes = bytes } in
          ((k : CString) → map_get (collect d).1.words k ≡ survivor (map_get words k))
          × ((collect d).0 + map_count (collect d).1.words ≡ map_count words)
    go none live bytes m l b = (λ k. refl, refl)
    go (some m) live bytes d l b = (
      λ k. find-swept m (live, bytes) k d,
      (swept-Gauges m 0 0 (live, bytes)
          (record { live = l ∙ omega arith; bytes = b ∙ omega arith })).1,
    )

survivor-some : (o : Option Word) (w : Word) → survivor o ≡ some w → o ≡ some w
unfolding survivor
survivor-some none w e = e
survivor-some (some v) w e = ground arith

-- A well-formed dictionary is well-formed after a sweep: its gauges are those of the words that
-- are left.
pub collect-IsDictionary : (d : Dictionary) → IsDictionary d → IsDictionary (collect d).1
unfolding collect map_delete_if map_get map_count bytes_of
collect-IsDictionary d v = go d.words d.words_live d.words_bytes v
  where
    go :
        (words : Map Word) (live bytes : ℕ)
        → let d : Dictionary = record { words = words; words_live = live; words_bytes = bytes } in
          IsDictionary d → IsDictionary (collect d).1
    go none live bytes v = v
    go (some m) live bytes v =
        let h =
          (swept-Gauges m 0 0 (live, bytes)
            (record { live = v.live ∙ omega arith; bytes = v.bytes ∙ omega arith })).0 in
        record {
          is_map = swept-Distinct m (live, bytes) v.is_map;
          are_words = λ k w e.
              v.are_words k w
                (survivor-some (find k m) w (sym (find-swept m (live, bytes) k v.is_map) ∙ e));
          live = h.live ∙ omega arith;
          bytes = h.bytes ∙ omega arith;
        }
