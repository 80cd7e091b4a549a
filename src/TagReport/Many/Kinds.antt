-- ===== src/TagReport/Many/Kinds.antt =====
-- The updates of the tag reports by any number of tags, one pair for each kind, src/data.cc, and the
-- functions that src/ha_pinba.cc sets a report up with.
use pinba_engine.Common.{CString, List, nat_eq, refl, string_eq, ℕ, ◌≡◌}
use pinba_engine.Floats.{Floats}
use pinba_engine.Histogram.{HistogramConfig}
use pinba_engine.Record.{StatsRecord}
use pinba_engine.Pool.{Pool}
use pinba_engine.TagReport.{Timer}
use pinba_engine.TagReport.Many.{
  WideKind, WideReport, WideTable, tag_n_info_kind, tag_n_report2_kind, tag_n_report_kind,
  update_wide_add, update_wide_delete, wide_grouping_of,
}

module _ (fl : Floats) where
  abbrev pub WideReportOf : WideKind → Type 0
  WideReportOf kind = WideReport (WideTable (wide_grouping_of fl kind))

  module _ (cfg : HistogramConfig fl) (text : ℕ → CString) (ids : List ℕ) where
    unfoldable pub update_tag_n_info_add :
        ℕ
        → Pool Timer
        → StatsRecord fl
        → WideReportOf tag_n_info_kind
        → WideReportOf tag_n_info_kind
    unfolding update_wide_add
    update_tag_n_info_add = update_wide_add fl cfg text ids (wide_grouping_of fl tag_n_info_kind)

    unfoldable pub update_tag_n_info_delete :
        ℕ
        → Pool Timer
        → StatsRecord fl
        → WideReportOf tag_n_info_kind
        → WideReportOf tag_n_info_kind
    unfolding update_wide_delete
    update_tag_n_info_delete =
        update_wide_delete fl cfg text ids (wide_grouping_of fl tag_n_info_kind)

    unfoldable pub update_tag_n_report_add :
        ℕ
        → Pool Timer
        → StatsRecord fl
        → WideReportOf tag_n_report_kind
        → WideReportOf tag_n_report_kind
    unfolding update_wide_add
    update_tag_n_report_add =
        update_wide_add fl cfg text ids (wide_grouping_of fl tag_n_report_kind)

    unfoldable pub update_tag_n_report_delete :
        ℕ
        → Pool Timer
        → StatsRecord fl
        → WideReportOf tag_n_report_kind
        → WideReportOf tag_n_report_kind
    unfolding update_wide_delete
    update_tag_n_report_delete =
        update_wide_delete fl cfg text ids (wide_grouping_of fl tag_n_report_kind)

    unfoldable pub update_tag_n_report2_add :
        ℕ
        → Pool Timer
        → StatsRecord fl
        → WideReportOf tag_n_report2_kind
        → WideReportOf tag_n_report2_kind
    unfolding update_wide_add
    update_tag_n_report2_add =
        update_wide_add fl cfg text ids (wide_grouping_of fl tag_n_report2_kind)

    unfoldable pub update_tag_n_report2_delete :
        ℕ
        → Pool Timer
        → StatsRecord fl
        → WideReportOf tag_n_report2_kind
        → WideReportOf tag_n_report2_kind
    unfolding update_wide_delete
    update_tag_n_report2_delete =
        update_wide_delete fl cfg text ids (wide_grouping_of fl tag_n_report2_kind)

    -- The functions that the report is set up with.
    unfoldable pub wide_add_func :
        (kind : WideKind) → ℕ → Pool Timer → StatsRecord fl → WideReportOf kind → WideReportOf kind
    unfolding update_tag_n_info_add update_tag_n_report_add update_tag_n_report2_add
    wide_add_func tag_n_info_kind = update_tag_n_info_add
    wide_add_func tag_n_report_kind = update_tag_n_report_add
    wide_add_func tag_n_report2_kind = update_tag_n_report2_add

    -- The functions that the report is set up with.
    unfoldable pub wide_delete_func :
        (kind : WideKind) → ℕ → Pool Timer → StatsRecord fl → WideReportOf kind → WideReportOf kind
    unfolding update_tag_n_info_delete update_tag_n_report_delete update_tag_n_report2_delete
    wide_delete_func tag_n_info_kind = update_tag_n_info_delete
    wide_delete_func tag_n_report_kind = update_tag_n_report_delete
    wide_delete_func tag_n_report2_kind = update_tag_n_report2_delete

    pub wide_add_func-update_wide_add :
        (kind : WideKind)
        → wide_add_func kind ≡ update_wide_add fl cfg text ids (wide_grouping_of fl kind)
    unfolding wide_add_func update_wide_add update_tag_n_info_add update_tag_n_report_add
        update_tag_n_report2_add
    wide_add_func-update_wide_add tag_n_info_kind = refl
    wide_add_func-update_wide_add tag_n_report_kind = refl
    wide_add_func-update_wide_add tag_n_report2_kind = refl

    pub wide_delete_func-update_wide_delete :
        (kind : WideKind)
        → wide_delete_func kind ≡ update_wide_delete fl cfg text ids (wide_grouping_of fl kind)
    unfolding wide_delete_func update_wide_delete update_tag_n_info_delete
        update_tag_n_report_delete update_tag_n_report2_delete
    wide_delete_func-update_wide_delete tag_n_info_kind = refl
    wide_delete_func-update_wide_delete tag_n_report_kind = refl
    wide_delete_func-update_wide_delete tag_n_report2_kind = refl
