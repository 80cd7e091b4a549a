-- ===== src/Dictionary.antt =====
-- src/pinba_dictionary.cc and src/pinba_dictionary.h: the dictionary of tag words, with the number
-- of references to each. A word belongs to its entry, so a pointer to it is its key. Locks and the
-- metrics that nothing reads are left out; what other threads do to the dictionary while a call
-- holds no lock is the argument `meanwhile`.
pub mod Counts
pub mod Intern
pub mod Budgets
pub mod Collect
use pinba_engine.Common.{
  Bool, CString, Option, [], add64, false, if◌then◌else◌, leb, length, ltb, min, nat_eq, none, not,
  some, string_eq, sub64, take, true, ℕ, ◌&&◌, ◌*◌, ◌+◌, ◌-◌, ◌==◌, ◌||◌, ◌∷◌,
}
use pinba_engine.Map.{Map, map_add, map_count, map_delete_if, map_get, map_try_add}

-- `pinba_word`
pub record Word : Type 0 where
  pub str : CString
  pub len : ℕ
  pub references : ℕ

-- The dictionary and its two gauges of src/pinba_runtime.h.
pub record Dictionary : Type 0 where
  pub words : Map Word
  pub words_live : ℕ
  pub words_bytes : ℕ

-- `pinba_dictionary_budget`: 0 is no limit.
pub record Budget : Type 0 where
  pub max_words : ℕ
  pub max_bytes : ℕ

-- Which allocations succeed: the word with its text, the storage of a null map, and a key's copy.
pub record Memory : Type 0 where
  pub word_ok : Bool
  pub map_ok : Bool
  pub key_ok : Bool

-- `sizeof(pinba_word)` on the 64-bit targets: a pointer, a byte, a counter.
abbrev pub word_size : ℕ
word_size = 24

-- PINBA_TAG_VALUE_SIZE
abbrev pub tag_value_size : ℕ
tag_value_size = 65

-- The text that C reads from an array: up to the first NUL.
unfoldable pub c_str : CString → CString
c_str [] = []
c_str (c ∷ s) = if c == 0 then [] else c ∷ c_str s

unfoldable pub charge : ℕ → ℕ
charge copied = word_size + 2 * (copied + 1)

unfoldable pub set_references : (ℕ → ℕ) → CString → Map Word → Map Word
set_references f key words = elim (map_get words key) [
  | none ↦ words
  | some w ↦ map_add true words key (record w { references = f w.references })
]

unfoldable pub retain : CString → Dictionary → Dictionary
unfolding set_references
retain key d = record d { words = set_references (λ n. add64 n 1) key d.words }

unfoldable pub release : CString → Dictionary → Dictionary
unfolding set_references
release key d = record d { words = set_references (λ n. sub64 n 1) key d.words }

unfoldable pub over_budget : Budget → ℕ → Dictionary → Bool
unfolding charge
over_budget budget copied d =
    (not (budget.max_words == 0) && leb budget.max_words (map_count d.words))
    || (not (budget.max_bytes == 0)
        && (ltb budget.max_bytes (charge copied)
            || ltb (budget.max_bytes - charge copied) d.words_bytes))

-- `pinba_map_try_add` of the new word, and the gauges.
unfoldable pub add_word : Memory → CString → ℕ → Dictionary → Option CString × Dictionary
unfolding charge
add_word memory key copied d =
    let word : Word = record { str = key; len = copied; references = 0 } in
    let (added, words) = map_try_add memory.map_ok memory.key_ok d.words key word in
    if memory.word_ok && added
    then (
      some key,
      record {
        words = words;
        words_live = add64 d.words_live 1;
        words_bytes = add64 d.words_bytes (charge copied);
      },
    )
    else (none, d)

-- `pinba_word_retain` of what `add_word` returned.
unfoldable pub retain_new : Option CString × Dictionary → Option CString × Dictionary
unfolding retain
retain_new (none, d) = (none, d)
retain_new (some key, d) = (some key, retain key d)

-- The part under the write lock.
unfoldable pub intern_wrlock :
    Memory → Budget → CString → ℕ → Dictionary → Option CString × Dictionary
unfolding retain_new
intern_wrlock memory budget key copied d = elim (map_get d.words key) [
  | some w ↦ (some key, retain key d)
  | none ↦
      if over_budget budget copied d then (none, d) else retain_new (add_word memory key copied d)
]

unfoldable pub intern_rdlock :
    (Dictionary → Dictionary) → Memory → Budget → CString → Dictionary → Option CString × Dictionary
unfolding intern_wrlock
intern_rdlock meanwhile memory budget str d =
    let copied = min (length str) (tag_value_size - 1) in
    let key = c_str (take copied str) in
    elim (map_get d.words key) [
      | some w ↦ (some key, retain key d)
      | none ↦ intern_wrlock memory budget key copied (meanwhile d)
    ]

unfoldable pub lookup : CString → Dictionary → Option CString × Dictionary
unfolding retain
lookup str d = elim (map_get d.words str) [ none ↦ (none, d) | some w ↦ (some str, retain str d) ]

-- The predicate of the sweep, which lowers the gauges for each word that it gives up.
unfoldable pub unused : Word → ℕ × ℕ → Bool × (ℕ × ℕ)
unfolding charge
unused w (live, bytes) =
    if not (w.references == 0)
    then (false, (live, bytes))
    else (true, (sub64 live 1, sub64 bytes (charge w.len)))

unfoldable pub collect : Dictionary → ℕ × Dictionary
unfolding unused
collect d =
    let (collected, words, (live, bytes)) =
      map_delete_if unused d.words (d.words_live, d.words_bytes) in
    (collected, record { words = words; words_live = live; words_bytes = bytes })
