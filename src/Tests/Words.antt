-- ===== src/Tests/Words.antt =====
-- A dictionary of two words, and a packet.
use pinba_engine.Common.{
  All, Bool-cases, CString, [], arith, find, fresh, if◌then◌else◌, inl, inr, length, min, nat_eq,
  none, refl, some, str_eq, str_eq_iff, string_eq, take, true, weigh, ◌+◌, ◌==◌, ◌↔◌, ◌∷◌, ◌≡◌,
}
use pinba_engine.Map.{map_count, map_delete_if, map_get}
use pinba_engine.Dictionary.{
  Budget, Dictionary, Memory, Word, c_str, charge, collect, intern_rdlock, release, retain,
}
use pinba_engine.Dictionary.Counts.{IsDictionary, IsWord, bytes_of}
use pinba_engine.Dictionary.Intern.{Answer, intern_rdlock-Answer, release-retain}
use pinba_engine.Dictionary.Budgets.{IsHealthy, intern_rdlock-IsHealthy}
use pinba_engine.Dictionary.Collect.{collect-IsDictionary, collect_lem, survivor}
use pinba_engine.Request.{Request, dictionary_index, no_error, validate_request}
use pinba_engine.Request.Valid.{IsWellFormed, validate_request_iff}
use pinba_engine.Conditions.{tags_match}
use pinba_engine.Conditions.Tags.{Carries, tags_match_iff}

abbrev get_word : CString
get_word = b'g' ∷ []

abbrev sql_word : CString
sql_word = b's' ∷ b'q' ∷ []

-- `sq` is not referenced.
abbrev dictionary : Dictionary
dictionary = record {
  words = some (
      (get_word, record { str = get_word; len = 1; references = 2 })
      ∷ (sql_word, record { str = sql_word; len = 2; references = 0 })
      ∷ []);
  words_live = 2;
  words_bytes = 58;
}

abbrev empty_dictionary : Dictionary
empty_dictionary = record { words = none; words_live = 0; words_bytes = 0 }

abbrev enough : Memory
enough = record { word_ok = true; map_ok = true; key_ok = true }

abbrev budget : Budget
budget = record { max_words = 5; max_bytes = 100 }

empty-IsHealthy : IsHealthy budget empty_dictionary
unfolding map_get map_count bytes_of
empty-IsHealthy = (
  record { is_map = tt; are_words = λ k w e. absurd (ground arith); live = refl; bytes = refl },
  record { words_within = λ h. omega arith; bytes_within = λ h. omega arith },
)

abbrev after_intern : Dictionary
after_intern = (intern_rdlock (λ d. d) enough budget get_word empty_dictionary).1

intern_rdlock-IsHealthy_example : IsHealthy budget after_intern
intern_rdlock-IsHealthy_example =
    intern_rdlock-IsHealthy (λ d. d) enough budget get_word empty_dictionary (λ d h. h)
      empty-IsHealthy

intern_rdlock-Answer_example :
    Answer
      (c_str (take (min (length sql_word) 64) sql_word))
      (if fresh (map_get dictionary.words (c_str (take (min (length sql_word) 64) sql_word))) == 1
        then dictionary
        else dictionary)
      (intern_rdlock (λ d. d) enough budget sql_word dictionary)
intern_rdlock-Answer_example = intern_rdlock-Answer (λ d. d) enough budget sql_word dictionary

release-retain_example :
    map_get (release get_word (retain get_word dictionary)).words get_word
    ≡ map_get dictionary.words get_word
unfolding map_get find str_eq
release-retain_example = release-retain get_word get_word dictionary (λ w e. ground arith)

dictionary_words : (k : CString) (w : Word) → map_get dictionary.words k ≡ some w → IsWord k w
unfolding map_get find
dictionary_words k w e = elim (Bool-cases (str_eq get_word k)) [
  | inl same ↦
      let at_key = (str_eq_iff get_word k).0 same in
      record { is_key = ground arith; len_fits = ground arith; str_fits = ground arith }
  | inr other ↦ elim (Bool-cases (str_eq sql_word k)) [
    | inl same ↦
        let at_key = (str_eq_iff sql_word k).0 same in
        record { is_key = ground arith; len_fits = ground arith; str_fits = ground arith }
    | inr absent ↦ absurd (ground arith)
  ]
]

dictionary-IsDictionary : IsDictionary dictionary
unfolding map_count bytes_of find weigh charge str_eq
dictionary-IsDictionary = record {
  is_map = (refl, (refl, tt));
  are_words = dictionary_words;
  live = refl;
  bytes = refl;
}

collect_lem_example :
    ((k : CString) → map_get (collect dictionary).1.words k ≡ survivor (map_get dictionary.words k))
    × ((collect dictionary).0 + map_count (collect dictionary).1.words ≡ map_count dictionary.words)
collect_lem_example = collect_lem dictionary dictionary-IsDictionary

collect-IsDictionary_example : IsDictionary (collect dictionary).1
collect-IsDictionary_example = collect-IsDictionary dictionary dictionary-IsDictionary

-- The sweep leaves one word and gives the bytes of the other back.
one_collected :
    ((collect dictionary).0 ≡ 1)
    × ((collect dictionary).1.words_live ≡ 1)
    × ((collect dictionary).1.words_bytes ≡ 28)
unfolding collect map_delete_if
one_collected = (refl, refl, refl)

-- A packet with one timer that has two tags, and one tag of its own.
abbrev packet : Request
packet = record {
  n_dictionary = 3;
  timer_hit_count = 4 ∷ [];
  n_timer_value = 1;
  timer_tag_count = 2 ∷ [];
  timer_tag_name = 0 ∷ 1 ∷ [];
  timer_tag_value = 2 ∷ 2 ∷ [];
  tag_name = 1 ∷ [];
  tag_value = 2 ∷ [];
}

validate_request_iff_example : (validate_request packet ≡ no_error) ↔ IsWellFormed packet
validate_request_iff_example = validate_request_iff packet

packet_accepted : validate_request packet ≡ no_error
unfolding validate_request
packet_accepted = refl

-- An index past the dictionary.
packet_rejected : validate_request (record packet { tag_value = 3 ∷ [] }) ≡ dictionary_index
unfolding validate_request
packet_rejected = refl

tags_match_iff_example :
    (tags_match ((1, 2) ∷ []) ((3, 4) ∷ (1, 2) ∷ []) ≡ true)
    ↔ All (Carries ((3, 4) ∷ (1, 2) ∷ [])) ((1, 2) ∷ [])
unfolding find
tags_match_iff_example =
    tags_match_iff ((1, 2) ∷ []) ((3, 4) ∷ (1, 2) ∷ []) (refl, (refl, tt)) (λ e. ground arith)
