-- ===== src/TagReport/Groups.antt =====
-- The groupings of the tag reports of src/data.cc: how each makes the index of a timer's row, when
-- the row is added and when it is deleted, and the labels of a new row. The sizes of the buffers
-- are those of src/pinba_limits.h, written out.
use pinba_engine.Common.{
  CString, Eq, List, Option, [], if◌then◌else◌, leb, length, nat_eq, none, some, string_eq, take, ℕ,
  ◌++◌, ◌+◌, ◌-◌, ◌==◌, ◌∷◌,
}
use pinba_engine.Floats.{Floats}
use pinba_engine.Text.{append_truncated, copy_truncated}
use pinba_engine.Record.{StatsRecord}
use pinba_engine.Store.{Store}
use pinba_engine.Store.Flat.{flat_store}
use pinba_engine.Store.Nested.{Key, pair_eq}
use pinba_engine.TagReport.{TagRow, Timer}
use pinba_engine.Store.Nested.Counts.{nested_store}

-- The byte between the parts of an index.
abbrev pub bar : ℕ
bar = b'|'

-- The value of the first tag with the identifier: the loop breaks there.
unfoldable pub find_tag : ℕ → List (ℕ × ℕ) → Option ℕ
find_tag id [] = none
find_tag id ((i, v) ∷ tags) = let rest = find_tag id tags in if id == i then some v else rest

-- The values of the last tags with the two identifiers, of which the first is looked at first.
unfoldable pub find_tags : ℕ → ℕ → List (ℕ × ℕ) → Option ℕ → Option ℕ → Option (ℕ × ℕ)
find_tags id1 id2 [] none pos2 = none
find_tags id1 id2 [] (some v1) none = none
find_tags id1 id2 [] (some v1) (some v2) = some (v1, v2)
find_tags id1 id2 ((i, v) ∷ tags) pos1 pos2 =
    find_tags id1 id2 tags (if id1 == i then some v else pos1)
      (if id1 == i then pos2 else if id2 == i then some v else pos2)

-- The first value of each tag, or nothing.
unfoldable pub find_all : List ℕ → List (ℕ × ℕ) → Option (List ℕ)
find_all [] tags = some []
find_all (id ∷ ids) tags =
    let rest = find_all ids tags in
    elim (find_tag id tags) [
      | none ↦ none
      | some v ↦ elim rest [ none ↦ none | some vs ↦ some (v ∷ vs) ]
    ]

-- What the updates of one kind of report need of it.
pub record Grouping (fl : Floats) : Type 1 where
  pub RowKey : Type 0
  pub key_eq : Eq RowKey
  pub row_store : Store RowKey TagRow ⦃e = key_eq⦄
  pub add_key : StatsRecord fl → Timer → Option RowKey
  pub delete_key : StatsRecord fl → Timer → Option RowKey
  pub new_labels : StatsRecord fl → Timer → List CString

abbrev pub word_label : CString → CString
word_label w = copy_truncated 65 w

-- `index_val` of the reports by two tags, in a buffer of `size` bytes.
unfoldable pub words_index : ℕ → CString → CString → CString
words_index size w1 w2 =
    let index0 = copy_truncated size w1 in append_truncated size (index0 ++ bar ∷ []) w2

-- `pinba_append_key_delimiter`: at the end of the buffer it keeps what is there but the last byte.
unfoldable pub append_key_delimiter : ℕ → CString → CString
append_key_delimiter buf_size buf =
    if leb buf_size (length buf + 1) then take (buf_size - 1) buf else buf ++ bar ∷ []

module _ {fl : Floats} where
  -- `index` of `tag_report2`.
  unfoldable pub host_index : ℕ → StatsRecord fl → CString → CString
  host_index size r w =
      let index0 = copy_truncated size r.hostname in
      let index1 = append_truncated size (index0 ++ bar ∷ []) r.server_name in
      append_truncated size (index1 ++ bar ∷ []) w

  -- `index_val` of `tag2_report2`.
  unfoldable pub host_words_index : ℕ → StatsRecord fl → CString → CString → CString
  host_words_index size r w1 w2 =
      let index0 = copy_truncated size r.hostname in
      let index1 = append_truncated size (append_key_delimiter size index0) r.server_name in
      let index2 = append_truncated size (append_key_delimiter size index1) w1 in
      append_truncated size (append_key_delimiter size index2) w2

  abbrev pub script_column : StatsRecord fl → CString
  script_column r = copy_truncated 129 r.script_name

  abbrev pub host_columns : StatsRecord fl → List CString
  host_columns r =
      copy_truncated 65 r.hostname ∷ copy_truncated 65 r.server_name ∷ script_column r ∷ []

-- `text` gives the text of a word by its address, and `id1` and `id2` are the report's `tag_id`.
module _ (text : ℕ → CString) (id1 id2 : ℕ) where
  -- What `f` makes of the word, or of the words, of a timer.
  abbrev pub with_word : {A : Type 0} → (CString → A) → Timer → Option A
  with_word f t = elim (find_tag id1 t.timer_tags) [ none ↦ none | some v ↦ some (f (text v)) ]

  abbrev pub with_words : {A : Type 0} → (CString → CString → A) → Timer → Option A
  with_words f t = elim (find_tags id1 id2 t.timer_tags none none) [
    | none ↦ none
    | some (v1, v2) ↦ some (f (text v1) (text v2))
  ]

  abbrev pub labels_with_word : List CString → Timer → List CString
  labels_with_word before t = elim (with_word word_label t) [
    | none ↦ []
    | some l ↦ before ++ l ∷ []
  ]

  abbrev pub labels_with_words : List CString → Timer → List CString
  labels_with_words before t = elim (with_words (λ w1 w2. word_label w1 ∷ word_label w2 ∷ []) t) [
    | none ↦ []
    | some ls ↦ before ++ ls
  ]

  module _ {fl : Floats} where
    abbrev pub tag_info : Grouping fl
    tag_info = record {
      RowKey = CString;
      key_eq = string_eq;
      row_store = flat_store TagRow;
      add_key = λ r. with_word (λ w. w);
      delete_key = λ r. with_word (λ w. w);
      new_labels = λ r t. [];
    }

    abbrev pub tag2_info : Grouping fl
    tag2_info = record {
      RowKey = CString;
      key_eq = string_eq;
      row_store = flat_store TagRow;
      add_key = λ r. with_words (words_index 131);
      delete_key = λ r. with_words (words_index 131);
      new_labels = λ r. labels_with_words [];
    }

    -- The other reports have a map for each script.
    abbrev pub tag_report : Grouping fl
    tag_report = record {
      RowKey = Key;
      key_eq = pair_eq;
      row_store = nested_store TagRow;
      add_key = λ r. with_word (λ w. (r.script_name, w));
      delete_key = λ r. with_word (λ w. (r.script_name, w));
      new_labels = λ r. labels_with_word (script_column r ∷ []);
    }

    abbrev pub tag2_report : Grouping fl
    tag2_report = record {
      RowKey = Key;
      key_eq = pair_eq;
      row_store = nested_store TagRow;
      add_key = λ r. with_words (λ w1 w2. (r.script_name, words_index 132 w1 w2));
      delete_key = λ r. with_words (λ w1 w2. (r.script_name, words_index 132 w1 w2));
      new_labels = λ r. labels_with_words (script_column r ∷ []);
    }

    abbrev pub tag_report2 : Grouping fl
    tag_report2 = record {
      RowKey = Key;
      key_eq = pair_eq;
      row_store = nested_store TagRow;
      add_key = λ r. with_word (λ w. (r.script_name, host_index 389 r w));
      delete_key = λ r. with_word (λ w. (r.script_name, host_index 327 r w));
      new_labels = λ r. labels_with_word (host_columns r);
    }

    abbrev pub tag2_report2 : Grouping fl
    tag2_report2 = record {
      RowKey = Key;
      key_eq = pair_eq;
      row_store = nested_store TagRow;
      add_key = λ r. with_words (λ w1 w2. (r.script_name, host_words_index 394 r w1 w2));
      delete_key = λ r. with_words (λ w1 w2. (r.script_name, host_words_index 392 r w1 w2));
      new_labels = λ r. labels_with_words (host_columns r);
    }
