-- ===== src/RtagReport/Groups.antt =====
-- The groupings of the request tag reports of src/data.cc: the index of a request's row and the
-- labels of a new row. The sizes of the buffers are those of src/pinba_limits.h, written out.
use pinba_engine.Common.{
  CString, Eq, List, Option, [], if◌then◌else◌, length, ltb, map, nat_eq, none, some, string_eq, ℕ,
  ◌==◌, ◌∷◌,
}
use pinba_engine.Floats.{Floats}
use pinba_engine.Text.{copy_truncated}
use pinba_engine.Record.{StatsRecord}
use pinba_engine.Store.{Store}
use pinba_engine.Store.Flat.{flat_store}
use pinba_engine.Store.Nested.{Key, pair_eq}
use pinba_engine.Report.{Label, ReportData, host_label, tag_label}
use pinba_engine.TagReport.Groups.{find_all, find_tag, words_index}
use pinba_engine.TagReport.Many.{words_with_bars}
use pinba_engine.Store.Nested.Counts.{nested_store}

-- What the updates of one kind of report need of it.
pub record RtagGrouping (fl : Floats) : Type 1 where
  pub RowKey : Type 0
  pub key_eq : Eq RowKey
  pub row_store : Store RowKey (ReportData fl) ⦃e = key_eq⦄
  pub request_key : StatsRecord fl → Option RowKey
  pub request_labels : StatsRecord fl → List Label

-- The loop for two tags: it ends when both are found, and until then a later tag takes the place of
-- an earlier one.
unfoldable pub find_two : ℕ → ℕ → List (ℕ × ℕ) → Option ℕ → Option ℕ → Option (ℕ × ℕ)
find_two id1 id2 [] pos1 pos2 = none
find_two id1 id2 ((i, v) ∷ tags) pos1 pos2 =
    let pos1' = if id1 == i then some v else pos1 in
    let pos2' = if id1 == i then pos2 else if id2 == i then some v else pos2 in
    let rest = find_two id1 id2 tags pos1' pos2' in
    elim pos1' [ none ↦ rest | some v1 ↦ elim pos2' [ none ↦ rest | some v2 ↦ some (v1, v2) ] ]

-- A request with fewer tags than the report is passed over at once.
unfoldable pub find_values : List ℕ → List (ℕ × ℕ) → Option (List ℕ)
unfolding find_all
find_values ids tags = if ltb (length tags) (length ids) then none else find_all ids tags

module _ {A : Type 0} (text : ℕ → CString) where
  abbrev pub of_word : (CString → A) → Option ℕ → Option A
  of_word f none = none
  of_word f (some v) = some (f (text v))

  abbrev pub of_two : (CString → CString → A) → Option (ℕ × ℕ) → Option A
  of_two f none = none
  of_two f (some (v1, v2)) = some (f (text v1) (text v2))

  abbrev pub of_values : (List CString → A) → Option (List ℕ) → Option A
  of_values f none = none
  of_values f (some vs) = some (f (map text vs))

abbrev pub labels_or_none : Option (List Label) → List Label
labels_or_none none = []
labels_or_none (some ls) = ls

abbrev pub value_label : CString → Label
value_label w = tag_label (copy_truncated 65 w)

abbrev pub name_label : {fl : Floats} → StatsRecord fl → Label
name_label r = host_label (copy_truncated 65 r.hostname)

-- `text` gives the text of a word by its address; `tag1` and `tag2` are the report's `tags`.
module _ {fl : Floats} (text : ℕ → CString) (tag1 tag2 : ℕ) where
  abbrev pub rtag_info : RtagGrouping fl
  rtag_info = record {
    RowKey = CString;
    key_eq = string_eq;
    row_store = flat_store (ReportData fl);
    request_key = λ r. of_word text (λ w. w) (find_tag tag1 r.tags);
    request_labels = λ r. [];
  }

  abbrev pub rtag2_info : RtagGrouping fl
  rtag2_info = record {
    RowKey = CString;
    key_eq = string_eq;
    row_store = flat_store (ReportData fl);
    request_key = λ r. of_two text (words_index 132) (find_two tag1 tag2 r.tags none none);
    request_labels = λ r. labels_or_none (
        of_two text (λ w1 w2. value_label w1 ∷ value_label w2 ∷ [])
          (find_two tag1 tag2 r.tags none none));
  }

  -- The others have a map for each host.
  abbrev pub rtag_report : RtagGrouping fl
  rtag_report = record {
    RowKey = Key;
    key_eq = pair_eq;
    row_store = nested_store (ReportData fl);
    request_key = λ r. of_word text (λ w. (r.hostname, w)) (find_tag tag1 r.tags);
    request_labels = λ r.
        labels_or_none
          (of_word text (λ w. name_label r ∷ value_label w ∷ []) (find_tag tag1 r.tags));
  }

  abbrev pub rtag2_report : RtagGrouping fl
  rtag2_report = record {
    RowKey = Key;
    key_eq = pair_eq;
    row_store = nested_store (ReportData fl);
    request_key = λ r.
        of_two text (λ w1 w2. (r.hostname, words_index 132 w1 w2))
          (find_two tag1 tag2 r.tags none none);
    request_labels = λ r. labels_or_none (
        of_two text (λ w1 w2. name_label r ∷ value_label w1 ∷ value_label w2 ∷ [])
          (find_two tag1 tag2 r.tags none none));
  }

module _ {fl : Floats} (text : ℕ → CString) (ids : List ℕ) where
  abbrev pub rtag_n_info : RtagGrouping fl
  rtag_n_info = record {
    RowKey = CString;
    key_eq = string_eq;
    row_store = flat_store (ReportData fl);
    request_key = λ r. of_values text words_with_bars (find_values ids r.tags);
    request_labels = λ r. labels_or_none (of_values text (map tag_label) (find_values ids r.tags));
  }

  abbrev pub rtag_n_report : RtagGrouping fl
  rtag_n_report = record {
    RowKey = Key;
    key_eq = pair_eq;
    row_store = nested_store (ReportData fl);
    request_key =
        λ r. of_values text (λ ws. (r.hostname, words_with_bars ws)) (find_values ids r.tags);
    request_labels = λ r.
        labels_or_none
          (of_values text (λ ws. name_label r ∷ map tag_label ws) (find_values ids r.tags));
  }
