-- ===== src/TagReport/Many.antt =====
-- The tag reports by any number of tags, `tag_n_info`, `tag_n_report` and `tag_n_report2` of
-- src/data.cc. The words that a timer's tags give are kept in the report, from timer to timer.
pub mod Scan
pub mod Kinds
pub mod Slide
use pinba_engine.Common.{
  Bool, CString, Eq, List, Option, [], false, if◌then◌else◌, length, ltb, map, nat_eq, none, not,
  set, some, string_eq, true, ℕ, ◌&&◌, ◌++◌, ◌+◌, ◌==◌, ◌||◌, ◌∷◌,
}
use pinba_engine.Time.{}
use pinba_engine.Floats.{Floats}
use pinba_engine.Text.{}
use pinba_engine.Histogram.{HistogramConfig}
use pinba_engine.Record.{StatsRecord}
use pinba_engine.Pool.{Pool}
use pinba_engine.Store.{Store}
use pinba_engine.Store.Flat.{flat_store}
use pinba_engine.Store.Nested.{Key, key_eq, pair_eq}
use pinba_engine.TagReport.Groups.{bar, host_columns, script_column}
use pinba_engine.TagReport.{TagReport, TagRow, Timer, add_at, delete_at, tag_predates, timers_of}
use pinba_engine.Store.Nested.Counts.{nested_store}

-- The search for the tags of a report in those of a timer. `jumped`: the `goto` was taken.
pub record Search : Type 0 where
  pub words : List ℕ
  pub found_tags_cnt : ℕ
  pub found : Bool
  pub jumped : Bool

unfoldable pub take_word : ℕ → ℕ → ℕ → Search → Search
take_word tags_cnt h v st = record {
  words = set st.words h v;
  found_tags_cnt = st.found_tags_cnt + 1;
  found = true;
  jumped = (st.found_tags_cnt + 1) == tags_cnt;
}

-- A tag of the timer, `i` with the word `v`; after the jump none is looked at.
unfoldable pub visit_tag : ℕ → ℕ → ℕ → ℕ × ℕ → Search → Search
visit_tag tags_cnt h tag_id (i, v) st =
    if st.jumped then st else if tag_id == i then take_word tags_cnt h v st else st

-- The inner loop: the tags of the timer, for the `h`-th tag of the report, which is `tag_id`.
unfoldable pub scan_tags : ℕ → ℕ → ℕ → List (ℕ × ℕ) → Search → Search
unfolding take_word visit_tag
scan_tags tags_cnt h tag_id [] st = st
scan_tags tags_cnt h tag_id (tag ∷ tags) st =
    scan_tags tags_cnt h tag_id tags (visit_tag tags_cnt h tag_id tag st)

-- The outer loop: it ends at a tag that is not found.
unfoldable pub scan_ids : ℕ → ℕ → List ℕ → List (ℕ × ℕ) → Search → Search
unfolding scan_tags
scan_ids tags_cnt h [] tags st = st
scan_ids tags_cnt h (tag_id ∷ ids) tags st =
    let st' = scan_tags tags_cnt h tag_id tags (record st { found = false }) in
    let rest = scan_ids tags_cnt (h + 1) ids tags st' in
    if st'.jumped || not st'.found then st' else rest

unfoldable pub search_words : List ℕ → List ℕ → List (ℕ × ℕ) → Search
unfolding scan_ids
search_words ids words tags =
    scan_ids (length ids) 0 ids tags
      (record { words = words; found_tags_cnt = 0; found = false; jumped = false })

-- `report->index` from some length on: every word with a bar after it.
unfoldable pub words_with_bars : List CString → CString
words_with_bars [] = []
words_with_bars (w ∷ ws) = (w ++ bar ∷ []) ++ words_with_bars ws

pub record WideReport (Table : Type 0) : Type 0 where
  pub tag_part : TagReport Table
  pub words : List ℕ

-- What the updates of one kind of report need of it. `counts_first`: a timer with fewer tags than
-- the report is passed over at once.
pub record WideGrouping (fl : Floats) : Type 1 where
  pub RowKey : Type 0
  pub key_eq : Eq RowKey
  pub row_store : Store RowKey TagRow ⦃e = key_eq⦄
  pub counts_first : Bool
  pub key_of_words : StatsRecord fl → List CString → RowKey
  pub labels_of_words : StatsRecord fl → List CString → List CString

pub data WideKind : Type 0 where
  tag_n_info_kind tag_n_report_kind tag_n_report2_kind : WideKind

abbrev pub WideTable : {fl : Floats} → WideGrouping fl → Type 0
WideTable g = g.row_store.Table

module _ (fl : Floats) where
  abbrev pub wide_grouping_of : WideKind → WideGrouping fl
  wide_grouping_of tag_n_info_kind = record {
    RowKey = CString;
    key_eq = string_eq;
    row_store = flat_store TagRow;
    counts_first = true;
    key_of_words = λ r ws. words_with_bars ws;
    labels_of_words = λ r ws. ws;
  }
  wide_grouping_of tag_n_report_kind = record {
    RowKey = Key;
    key_eq = pair_eq;
    row_store = nested_store TagRow;
    counts_first = false;
    key_of_words = λ r ws. (r.script_name, words_with_bars ws);
    labels_of_words = λ r ws. script_column r ∷ ws;
  }
  wide_grouping_of tag_n_report2_kind = record {
    RowKey = Key;
    key_eq = pair_eq;
    row_store = nested_store TagRow;
    counts_first = false;
    key_of_words = λ r ws. (
      r.script_name,
      (r.hostname ++ bar ∷ []) ++ (r.server_name ++ bar ∷ []) ++ words_with_bars ws,
    );
    labels_of_words = λ r ws. host_columns r ++ ws;
  }

  module _ (cfg : HistogramConfig fl) (text : ℕ → CString) (ids : List ℕ)
      (g : WideGrouping fl) where
    -- The words after a timer, and those of its row, if it has one.
    unfoldable pub search_timer : List ℕ → Timer → List ℕ × Option (List ℕ)
    search_timer words t =
        if g.counts_first && ltb (length t.timer_tags) (length ids)
        then (words, none)
        else let st = search_words ids words t.timer_tags in
          (st.words, if st.found_tags_cnt == length ids then some st.words else none)

    unfoldable pub wide_add_at :
        ℕ
        → StatsRecord fl
        → Timer
        → TagReport (WideTable g)
        → Option (List ℕ)
        → TagReport (WideTable g)
    wide_add_at request_id r t report none = report
    wide_add_at request_id r t report (some words) =
        let ws = map text words in
        add_at fl cfg ⦃e = g.key_eq⦄ g.row_store (λ t. none) (λ t. g.labels_of_words r ws)
          request_id t (g.key_of_words r ws) report

    unfoldable pub wide_add_timers :
        ℕ → StatsRecord fl → List Timer → WideReport (WideTable g) → WideReport (WideTable g)
    unfolding search_timer wide_add_at
    wide_add_timers request_id r [] report = report
    wide_add_timers request_id r (t ∷ ts) report =
        let found = search_timer report.words t in
        wide_add_timers request_id r ts (record {
          tag_part = wide_add_at request_id r t report.tag_part found.1;
          words = found.0;
        })

    unfoldable pub wide_delete_at :
        ℕ
        → StatsRecord fl
        → Timer
        → TagReport (WideTable g)
        → Option (List ℕ)
        → TagReport (WideTable g)
    wide_delete_at request_id r t report none = report
    wide_delete_at request_id r t report (some words) =
        let key = g.key_of_words r (map text words) in
        delete_at fl cfg ⦃e = g.key_eq⦄ g.row_store (λ t. none) (λ t. []) request_id t key report
          (g.row_store.get report.results key)

    unfoldable pub wide_delete_timers :
        ℕ → StatsRecord fl → List Timer → WideReport (WideTable g) → WideReport (WideTable g)
    unfolding search_timer wide_delete_at
    wide_delete_timers request_id r [] report = report
    wide_delete_timers request_id r (t ∷ ts) report =
        let found = search_timer report.words t in
        wide_delete_timers request_id r ts (record {
          tag_part = wide_delete_at request_id r t report.tag_part found.1;
          words = found.0;
        })

    unfoldable pub update_wide_add :
        ℕ → Pool Timer → StatsRecord fl → WideReport (WideTable g) → WideReport (WideTable g)
    update_wide_add request_id pool r report =
        wide_add_timers request_id r (timers_of pool r) report

    unfoldable pub update_wide_delete :
        ℕ → Pool Timer → StatsRecord fl → WideReport (WideTable g) → WideReport (WideTable g)
    update_wide_delete request_id pool r report =
        if tag_predates report.tag_part r
        then report
        else wide_delete_timers request_id r (timers_of pool r) report
