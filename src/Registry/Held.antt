-- ===== src/Registry/Held.antt =====
-- How many references to each word are held, while the functions of src/ha_pinba.cc that make a
-- request tag report take and give back words of src/pinba_dictionary.cc.
use pinba_engine.Common.{
  Bool-cases, CString, List, Option, [], add64, ap, arith, if◌then◌else◌, inl, inr, nat_eq, none,
  refl, some, str_eq, str_eq_iff, str_eq_refl, string_eq, sub64, sym, ℕ, ◌%◌, ◌+◌, ◌<◌, ◌^◌, ◌∙◌,
  ◌∷◌, ◌≡◌,
}
use pinba_engine.Map.{map_get}
use pinba_engine.Dictionary.{Dictionary, Word, release}
use pinba_engine.Dictionary.Counts.{map_get-set_references}
use pinba_engine.Dictionary.Intern.{Answer, Interned, interned, references_of, rejected}
use pinba_engine.Registry.Rtags.{word_release, words_release}

-- 1 for the word's own text.
abbrev pub times : CString → Option CString → ℕ
times j none = 0
times j (some key) = if str_eq key j then 1 else 0

unfoldable pub times_in : CString → List (Option CString) → ℕ
times_in j [] = 0
times_in j (word ∷ words) = times j word + times_in j words

abbrev pub IsThere : Dictionary → CString → Type 0
IsThere d j = (w : Word) × (map_get d.words j ≡ some w)

-- From the dictionary `d` to `d'` the references to each word have grown by what is held, no word
-- has gone, and what is held is there.
pub record Holds (held : CString → ℕ) (d d' : Dictionary) : Type 0 where
  pub there : (j : CString) → 0 < held j → IsThere d' j
  pub kept : (j : CString) → IsThere d j → IsThere d' j
  pub counts :
      (j : CString)
      → references_of (map_get d'.words j) ≡ (references_of (map_get d.words j) + held j) % 2 ^ 64

pub Holds-cast :
    (f g : CString → ℕ) (d d' : Dictionary)
    → ((j : CString) → f j ≡ g j)
    → Holds f d d'
    → Holds g d d'
Holds-cast f g d d' same h = record {
  there = λ j p. h.there j (omega (arith, same j));
  kept = h.kept;
  counts = λ j. omega (arith, same j, h.counts j);
}

module _ (key : CString) (d d' : Dictionary) (i : Interned key d d') where
  Interned-IsThere : (j : CString) → IsThere d j → IsThere d' j
  Interned-IsThere j (w, e) = elim (Bool-cases (str_eq key j)) [
    | inl same ↦ (i.word, ap (map_get d'.words) (sym ((str_eq_iff key j).0 same)) ∙ i.found)
    | inr other ↦ (w, i.others j other ∙ e)
  ]

  Interned-counts :
      (j : CString)
      → references_of (map_get d'.words j) ≡ (
          if str_eq key j
          then add64 (references_of (map_get d.words j)) 1
          else references_of (map_get d.words j))
  Interned-counts j = elim (Bool-cases (str_eq key j)) [
    | inl same ↦
        let is_j : key ≡ j = (str_eq_iff key j).0 same in rw (same, ← is_j, i.found) i.referenced
    | inr other ↦ rw (other, i.others j other) refl
  ]

  pub Interned-Holds :
      (held : CString → ℕ) (d0 : Dictionary)
      → Holds held d0 d
      → Holds (λ j. times j (some key) + held j) d0 d'
  Interned-Holds held d0 h = record {
    there = λ j p. elim (Bool-cases (str_eq key j)) [
      | inl same ↦ (i.word, ap (map_get d'.words) (sym ((str_eq_iff key j).0 same)) ∙ i.found)
      | inr other ↦ Interned-IsThere j (h.there j (ground arith))
    ];
    kept = λ j p. Interned-IsThere j (h.kept j p);
    counts = λ j. elim (Bool-cases (str_eq key j)) [
      | inl same ↦ rw (Interned-counts j, same) (omega (arith, h.counts j))
      | inr other ↦ rw (Interned-counts j, other) (omega (arith, h.counts j))
    ];
  }

-- A call that returns a word, or null, holds it.
pub Answer-Holds :
    (key : CString) (d d0 : Dictionary) (held : CString → ℕ) (r : Option CString × Dictionary)
    → Answer key d r
    → Holds held d0 d
    → Holds (λ j. times j r.0 + held j) d0 r.1
Answer-Holds key d d0 held _ (rejected absent) h = Holds-cast held _ d0 d (λ j. omega arith) h
Answer-Holds key d d0 held _ (interned d' i) h = Interned-Holds key d d' i held d0 h

release-IsThere :
    (key : CString) (d : Dictionary) (j : CString) → IsThere d j → IsThere (release key d) j
unfolding release
release-IsThere key d j (w, e) =
    let given = map_get-set_references (λ n. sub64 n 1) key j d.words in
    elim (Bool-cases (str_eq key j)) [
      | inr other ↦ (w, given ∙ rw (other, e) refl)
      | inl same ↦
          let at_key : map_get d.words key ≡ some w =
            ap (map_get d.words) ((str_eq_iff key j).0 same) ∙ e in
          (record w { references = sub64 w.references 1 }, given ∙ rw (same, at_key) refl)
    ]

release-counts :
    (key : CString) (d : Dictionary) (j : CString)
    → IsThere d key
    → references_of (map_get (release key d).words j) ≡ (
        if str_eq key j
        then sub64 (references_of (map_get d.words j)) 1
        else references_of (map_get d.words j))
unfolding release
release-counts key d j (w, e) =
    let given = map_get-set_references (λ n. sub64 n 1) key j d.words in
    elim (Bool-cases (str_eq key j)) [
      | inr other ↦ rw (given, other) refl
      | inl same ↦
          let at_j : map_get d.words j ≡ some w =
            ap (map_get d.words) (sym ((str_eq_iff key j).0 same)) ∙ e in
          rw (given, same, e, at_j) refl
    ]

pub word_release-Holds :
    (word : Option CString) (held : CString → ℕ) (d0 d : Dictionary)
    → Holds (λ j. times j word + held j) d0 d
    → Holds held d0 (word_release word d)
unfolding word_release
word_release-Holds none held d0 d h = Holds-cast _ held d0 d (λ j. omega arith) h
word_release-Holds (some key) held d0 d h =
    let here : IsThere d key = h.there key (rw (str_eq_refl key) (omega arith)) in
    record {
      there = λ j p. release-IsThere key d j (h.there j (omega arith));
      kept = λ j p. release-IsThere key d j (h.kept j p);
      counts = λ j. elim (Bool-cases (str_eq key j)) [
        | inl same ↦
            let before = h.counts j in
            rw (release-counts key d j here, same) (omega (arith, rw same at before))
        | inr other ↦
            let before = h.counts j in
            rw (release-counts key d j here, other) (omega (arith, rw other at before))
      ];
    }

pub words_release-Holds :
    (words : List (Option CString)) (held : CString → ℕ) (d0 d : Dictionary)
    → Holds (λ j. times_in j words + held j) d0 d
    → Holds held d0 (words_release words d)
unfolding words_release times_in
words_release-Holds [] held d0 d h = Holds-cast _ held d0 d (λ j. omega arith) h
words_release-Holds (word ∷ words) held d0 d h =
    words_release-Holds words held d0 (word_release word d) (
      word_release-Holds word (λ j. times_in j words + held j) d0 d
        (Holds-cast _ (λ j. times j word + (times_in j words + held j)) d0 d (λ j. omega arith) h))
