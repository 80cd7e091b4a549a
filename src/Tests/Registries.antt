-- ===== src/Tests/Registries.antt =====
-- The first report of a table in an empty registry, with conditions that are numbers.
use pinba_engine.Common.{
  Bool-cases, CString, Option, [], arith, assign, false, find, inl, inr, nat_eq, none, refl, some,
  str_eq, string_eq, true, ℕ, ◌∷◌, ◌≡◌,
}
use pinba_engine.Map.{map_add, map_count, map_get, map_try_add}
use pinba_engine.Lmap.{lmap_get}
use pinba_engine.Registry.{Registry, Share, array_add, update_report_tables}
use pinba_engine.Registry.Base.{regenerate}
use pinba_engine.Registry.Outcome.{IsOutcome, regenerate-IsOutcome}
use pinba_engine.Registry.Tags.{regenerate_tag, regenerate_tag_dangles, tags_of_params}
use pinba_engine.Dictionary.{
  Budget, Dictionary, Memory, add_word, c_str, intern_rdlock, lookup, over_budget, release,
}
use pinba_engine.Registry.Rtags.{Condition, regenerate_rtag}
use pinba_engine.Registry.Words.{CountsFit, LeavesWords, regenerate_rtag-LeavesWords}
use pinba_engine.Dictionary.Counts.{}
use pinba_engine.Dictionary.Intern.{references_of}

abbrev empty_registry : Registry ℕ
empty_registry = record {
  reports = none;
  reports_arr = record { data_at = none; size = 0 };
  reports_to_tables = none;
  memory = none;
}

abbrev share : Share ℕ
share = record { index = b'9' ∷ []; params = (b't' ∷ []) ∷ []; share_conditions = 4 }

abbrev with_tables : Registry ℕ
with_tables = record empty_registry {
  reports_to_tables = some ((b'9' ∷ [], record { std = none; tables = 2 }) ∷ []);
}

regenerate-IsOutcome_example :
    IsOutcome with_tables share.index (regenerate 9 share (some 1) true with_tables)
regenerate-IsOutcome_example = regenerate-IsOutcome 9 share (some 1) with_tables tt (λ a h. refl)

abbrev tag_five : CString → Option ℕ
tag_five name = some 5

no_report : map_get empty_registry.reports share.index ≡ none
unfolding map_get
no_report = refl

tag_known : tags_of_params tag_five share.params ≡ some (5 ∷ [])
unfolding tags_of_params
tag_known = refl

no_tables : map_get empty_registry.reports_to_tables share.index ≡ none
unfolding map_get
no_tables = refl

regenerate_tag_dangles_example :
    let result = regenerate_tag 27 false tag_five share.params share (some 1) true empty_registry in
    (result.0 ≡ none)
    × (map_get result.1.reports share.index ≡ some 1)
    × (lmap_get result.1.memory 1 ≡ none)
regenerate_tag_dangles_example =
    regenerate_tag_dangles 27 false tag_five share.params share 1 (5 ∷ []) empty_registry no_report
      tag_known no_tables tt

abbrev one_word : Dictionary
one_word = record {
  words = some ((b't' ∷ [], record { str = b't' ∷ []; len = 1; references = 3 }) ∷ []);
  words_live = 1;
  words_bytes = 28;
}

one_word-CountsFit : CountsFit one_word
unfolding map_get find str_eq
one_word-CountsFit k w e = elim (Bool-cases (str_eq (b't' ∷ []) k)) [
  | inl same ↦ ground arith
  | inr other ↦ ground arith
]

abbrev enough : Memory
enough = record { word_ok = true; map_ok = true; key_ok = true }

-- `tag.x`, which must be `t`.
abbrev wanted : Condition
wanted = record {
  cond_name = b't' ∷ b'a' ∷ b'g' ∷ b'.' ∷ b'x' ∷ [];
  cond_value = b't' ∷ [];
  name_memory = enough;
  value_memory = enough;
}

abbrev no_limit : Budget
no_limit = record { max_words = 0; max_bytes = 0 }

-- The words are taken, and given back since no table is known.
abbrev not_made : Option ℕ × (Registry ℕ × Dictionary)
not_made =
    regenerate_rtag 36 false no_limit (wanted ∷ []) share true true share.params (some 1)
      empty_registry one_word

regenerate_rtag-LeavesWords_example : LeavesWords one_word not_made
regenerate_rtag-LeavesWords_example =
    regenerate_rtag-LeavesWords 36 false no_limit (wanted ∷ []) share true true empty_registry
      share.params (some 1) one_word one_word-CountsFit

no_report_made : not_made.0 ≡ none
unfolding regenerate_rtag map_get lookup find str_eq array_add update_report_tables
no_report_made = refl

-- The word of the condition's name is new, and nobody holds it; the other is held three times.
counts_after :
    (references_of (map_get not_made.1.1.words (b'x' ∷ [])) ≡ 0)
    × (references_of (map_get not_made.1.1.words (b't' ∷ [])) ≡ 3)
    × (map_count not_made.1.1.words ≡ 2)
unfolding regenerate_rtag map_get lookup find str_eq array_add update_report_tables release
    intern_rdlock map_add assign c_str over_budget add_word map_try_add map_count
counts_after = (refl, refl, refl)
