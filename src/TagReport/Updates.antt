-- ===== src/TagReport/Updates.antt =====
-- The updates of the tag reports by one and by two tags: src/data.cc.
use pinba_engine.Common.{CString, if◌then◌else◌, nat_eq, refl, string_eq, ℕ, ◌≡◌}
use pinba_engine.Time.{}
use pinba_engine.Floats.{Floats}
use pinba_engine.Histogram.{HistogramConfig}
use pinba_engine.Record.{StatsRecord}
use pinba_engine.Pool.{Pool}
use pinba_engine.Store.{}
use pinba_engine.TagReport.Groups.{
  Grouping, tag2_info, tag2_report, tag2_report2, tag_info, tag_report, tag_report2,
}
use pinba_engine.TagReport.{TagReport, Timer, add_timers, delete_timers, tag_predates, timers_of}

-- The kinds of tag report, by the names that their functions have in src/data.cc.
pub data TagKind : Type 0 where
  tag_info_kind : TagKind
  tag2_info_kind : TagKind
  tag_report_kind : TagKind
  tag2_report_kind : TagKind
  tag_report2_kind : TagKind
  tag2_report2_kind : TagKind

module _ {fl : Floats} where
  abbrev pub RowTable : Grouping fl → Type 0
  RowTable g = g.row_store.Table

module _ (fl : Floats) (text : ℕ → CString) (id1 id2 : ℕ) where
  abbrev pub grouping_of : TagKind → Grouping fl
  grouping_of tag_info_kind = tag_info text id1 id2
  grouping_of tag2_info_kind = tag2_info text id1 id2
  grouping_of tag_report_kind = tag_report text id1 id2
  grouping_of tag2_report_kind = tag2_report text id1 id2
  grouping_of tag_report2_kind = tag_report2 text id1 id2
  grouping_of tag2_report2_kind = tag2_report2 text id1 id2

module _ (fl : Floats) (cfg : HistogramConfig fl) where
  -- The bodies that the functions below share. The report's own `request_id` numbers the requests
  -- by their places in the request pool.
  unfoldable pub update_tag_add :
      (g : Grouping fl)
      → ℕ
      → Pool Timer
      → StatsRecord fl
      → TagReport (RowTable g)
      → TagReport (RowTable g)
  update_tag_add g request_id pool r report =
      add_timers fl cfg ⦃e = g.key_eq⦄ g.row_store (g.add_key r) (g.new_labels r) request_id
        (timers_of pool r) report

  unfoldable pub update_tag_delete :
      (g : Grouping fl)
      → ℕ
      → Pool Timer
      → StatsRecord fl
      → TagReport (RowTable g)
      → TagReport (RowTable g)
  update_tag_delete g request_id pool r report =
      if tag_predates report r
      then report
      else delete_timers fl cfg ⦃e = g.key_eq⦄ g.row_store (g.delete_key r) (g.new_labels r)
          request_id (timers_of pool r) report

  module _ (text : ℕ → CString) (id1 id2 : ℕ) where
    unfoldable pub update_tag_info_add :
        ℕ
        → Pool Timer
        → StatsRecord fl
        → TagReport (RowTable (grouping_of fl text id1 id2 tag_info_kind))
        → TagReport (RowTable (grouping_of fl text id1 id2 tag_info_kind))
    unfolding update_tag_add
    update_tag_info_add = update_tag_add (grouping_of fl text id1 id2 tag_info_kind)

    unfoldable pub update_tag_info_delete :
        ℕ
        → Pool Timer
        → StatsRecord fl
        → TagReport (RowTable (grouping_of fl text id1 id2 tag_info_kind))
        → TagReport (RowTable (grouping_of fl text id1 id2 tag_info_kind))
    unfolding update_tag_delete
    update_tag_info_delete = update_tag_delete (grouping_of fl text id1 id2 tag_info_kind)

    unfoldable pub update_tag2_info_add :
        ℕ
        → Pool Timer
        → StatsRecord fl
        → TagReport (RowTable (grouping_of fl text id1 id2 tag2_info_kind))
        → TagReport (RowTable (grouping_of fl text id1 id2 tag2_info_kind))
    unfolding update_tag_add
    update_tag2_info_add = update_tag_add (grouping_of fl text id1 id2 tag2_info_kind)

    unfoldable pub update_tag2_info_delete :
        ℕ
        → Pool Timer
        → StatsRecord fl
        → TagReport (RowTable (grouping_of fl text id1 id2 tag2_info_kind))
        → TagReport (RowTable (grouping_of fl text id1 id2 tag2_info_kind))
    unfolding update_tag_delete
    update_tag2_info_delete = update_tag_delete (grouping_of fl text id1 id2 tag2_info_kind)

    unfoldable pub update_tag_report_add :
        ℕ
        → Pool Timer
        → StatsRecord fl
        → TagReport (RowTable (grouping_of fl text id1 id2 tag_report_kind))
        → TagReport (RowTable (grouping_of fl text id1 id2 tag_report_kind))
    unfolding update_tag_add
    update_tag_report_add = update_tag_add (grouping_of fl text id1 id2 tag_report_kind)

    unfoldable pub update_tag_report_delete :
        ℕ
        → Pool Timer
        → StatsRecord fl
        → TagReport (RowTable (grouping_of fl text id1 id2 tag_report_kind))
        → TagReport (RowTable (grouping_of fl text id1 id2 tag_report_kind))
    unfolding update_tag_delete
    update_tag_report_delete = update_tag_delete (grouping_of fl text id1 id2 tag_report_kind)

    unfoldable pub update_tag2_report_add :
        ℕ
        → Pool Timer
        → StatsRecord fl
        → TagReport (RowTable (grouping_of fl text id1 id2 tag2_report_kind))
        → TagReport (RowTable (grouping_of fl text id1 id2 tag2_report_kind))
    unfolding update_tag_add
    update_tag2_report_add = update_tag_add (grouping_of fl text id1 id2 tag2_report_kind)

    unfoldable pub update_tag2_report_delete :
        ℕ
        → Pool Timer
        → StatsRecord fl
        → TagReport (RowTable (grouping_of fl text id1 id2 tag2_report_kind))
        → TagReport (RowTable (grouping_of fl text id1 id2 tag2_report_kind))
    unfolding update_tag_delete
    update_tag2_report_delete = update_tag_delete (grouping_of fl text id1 id2 tag2_report_kind)

    unfoldable pub update_tag_report2_add :
        ℕ
        → Pool Timer
        → StatsRecord fl
        → TagReport (RowTable (grouping_of fl text id1 id2 tag_report2_kind))
        → TagReport (RowTable (grouping_of fl text id1 id2 tag_report2_kind))
    unfolding update_tag_add
    update_tag_report2_add = update_tag_add (grouping_of fl text id1 id2 tag_report2_kind)

    unfoldable pub update_tag_report2_delete :
        ℕ
        → Pool Timer
        → StatsRecord fl
        → TagReport (RowTable (grouping_of fl text id1 id2 tag_report2_kind))
        → TagReport (RowTable (grouping_of fl text id1 id2 tag_report2_kind))
    unfolding update_tag_delete
    update_tag_report2_delete = update_tag_delete (grouping_of fl text id1 id2 tag_report2_kind)

    unfoldable pub update_tag2_report2_add :
        ℕ
        → Pool Timer
        → StatsRecord fl
        → TagReport (RowTable (grouping_of fl text id1 id2 tag2_report2_kind))
        → TagReport (RowTable (grouping_of fl text id1 id2 tag2_report2_kind))
    unfolding update_tag_add
    update_tag2_report2_add = update_tag_add (grouping_of fl text id1 id2 tag2_report2_kind)

    unfoldable pub update_tag2_report2_delete :
        ℕ
        → Pool Timer
        → StatsRecord fl
        → TagReport (RowTable (grouping_of fl text id1 id2 tag2_report2_kind))
        → TagReport (RowTable (grouping_of fl text id1 id2 tag2_report2_kind))
    unfolding update_tag_delete
    update_tag2_report2_delete = update_tag_delete (grouping_of fl text id1 id2 tag2_report2_kind)

    -- The functions that the report is set up with.
    unfoldable pub tag_add_func :
        (kind : TagKind)
        → ℕ
        → Pool Timer
        → StatsRecord fl
        → TagReport (RowTable (grouping_of fl text id1 id2 kind))
        → TagReport (RowTable (grouping_of fl text id1 id2 kind))
    unfolding update_tag_info_add update_tag2_info_add update_tag_report_add update_tag2_report_add
        update_tag_report2_add update_tag2_report2_add
    tag_add_func tag_info_kind = update_tag_info_add
    tag_add_func tag2_info_kind = update_tag2_info_add
    tag_add_func tag_report_kind = update_tag_report_add
    tag_add_func tag2_report_kind = update_tag2_report_add
    tag_add_func tag_report2_kind = update_tag_report2_add
    tag_add_func tag2_report2_kind = update_tag2_report2_add

    -- The functions that the report is set up with.
    unfoldable pub tag_delete_func :
        (kind : TagKind)
        → ℕ
        → Pool Timer
        → StatsRecord fl
        → TagReport (RowTable (grouping_of fl text id1 id2 kind))
        → TagReport (RowTable (grouping_of fl text id1 id2 kind))
    unfolding update_tag_info_delete update_tag2_info_delete update_tag_report_delete
        update_tag2_report_delete update_tag_report2_delete update_tag2_report2_delete
    tag_delete_func tag_info_kind = update_tag_info_delete
    tag_delete_func tag2_info_kind = update_tag2_info_delete
    tag_delete_func tag_report_kind = update_tag_report_delete
    tag_delete_func tag2_report_kind = update_tag2_report_delete
    tag_delete_func tag_report2_kind = update_tag_report2_delete
    tag_delete_func tag2_report2_kind = update_tag2_report2_delete

    pub tag_add_func-update_tag_add :
        (kind : TagKind) → tag_add_func kind ≡ update_tag_add (grouping_of fl text id1 id2 kind)
    unfolding tag_add_func update_tag_add update_tag_info_add update_tag2_info_add
        update_tag_report_add update_tag2_report_add update_tag_report2_add update_tag2_report2_add
    tag_add_func-update_tag_add tag_info_kind = refl
    tag_add_func-update_tag_add tag2_info_kind = refl
    tag_add_func-update_tag_add tag_report_kind = refl
    tag_add_func-update_tag_add tag2_report_kind = refl
    tag_add_func-update_tag_add tag_report2_kind = refl
    tag_add_func-update_tag_add tag2_report2_kind = refl

    pub tag_delete_func-update_tag_delete :
        (kind : TagKind)
        → tag_delete_func kind ≡ update_tag_delete (grouping_of fl text id1 id2 kind)
    unfolding tag_delete_func update_tag_delete update_tag_info_delete update_tag2_info_delete
        update_tag_report_delete update_tag2_report_delete update_tag_report2_delete
        update_tag2_report2_delete
    tag_delete_func-update_tag_delete tag_info_kind = refl
    tag_delete_func-update_tag_delete tag2_info_kind = refl
    tag_delete_func-update_tag_delete tag_report_kind = refl
    tag_delete_func-update_tag_delete tag2_report_kind = refl
    tag_delete_func-update_tag_delete tag_report2_kind = refl
    tag_delete_func-update_tag_delete tag2_report2_kind = refl
