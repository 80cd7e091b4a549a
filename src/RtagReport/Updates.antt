-- ===== src/RtagReport/Updates.antt =====
-- The updates of the request tag reports: src/data.cc.
use pinba_engine.Common.{CString, List, [], nat_eq, refl, string_eq, ℕ, ◌∷◌, ◌≡◌}
use pinba_engine.Time.{}
use pinba_engine.Floats.{Floats}
use pinba_engine.Histogram.{HistogramConfig}
use pinba_engine.Record.{StatsRecord}
use pinba_engine.Store.{}
use pinba_engine.RtagReport.Groups.{
  RtagGrouping, rtag2_info, rtag2_report, rtag_n_info, rtag_n_report, rtag_info, rtag_report,
}
use pinba_engine.RtagReport.{RtagReport, rtag_add, rtag_delete}

-- The kinds of request tag report, by the names that their functions have in src/data.cc.
pub data RtagKind : Type 0 where
  rtag_info_kind : RtagKind
  rtag2_info_kind : RtagKind
  rtag_report_kind : RtagKind
  rtag2_report_kind : RtagKind
  rtag_n_info_kind : RtagKind
  rtag_n_report_kind : RtagKind

abbrev pub RtagTable : {fl : Floats} → RtagGrouping fl → Type 0
RtagTable g = g.row_store.Table

-- The tags of a report: `first_tag ids` is its `tags[0]`.
abbrev pub first_tag : List ℕ → ℕ
first_tag [] = 0
first_tag (id ∷ ids) = id

abbrev pub second_tag : List ℕ → ℕ
second_tag [] = 0
second_tag (id ∷ ids) = first_tag ids

module _ (fl : Floats) (text : ℕ → CString) (ids : List ℕ) where
  abbrev pub rtag_grouping_of : RtagKind → RtagGrouping fl
  rtag_grouping_of rtag_info_kind = rtag_info text (first_tag ids) (second_tag ids)
  rtag_grouping_of rtag2_info_kind = rtag2_info text (first_tag ids) (second_tag ids)
  rtag_grouping_of rtag_report_kind = rtag_report text (first_tag ids) (second_tag ids)
  rtag_grouping_of rtag2_report_kind = rtag2_report text (first_tag ids) (second_tag ids)
  rtag_grouping_of rtag_n_info_kind = rtag_n_info text ids
  rtag_grouping_of rtag_n_report_kind = rtag_n_report text ids

  abbrev pub RtagReportOf : RtagKind → Type 0
  RtagReportOf kind = RtagReport fl (RtagTable (rtag_grouping_of kind))

module _ (fl : Floats) (cfg : HistogramConfig fl) where
  -- The bodies that the functions below share.
  unfoldable pub update_rtag_add :
      (g : RtagGrouping fl)
      → StatsRecord fl
      → RtagReport fl (RtagTable g)
      → RtagReport fl (RtagTable g)
  update_rtag_add g = rtag_add fl cfg ⦃e = g.key_eq⦄ g.row_store g.request_key g.request_labels

  unfoldable pub update_rtag_delete :
      (g : RtagGrouping fl)
      → StatsRecord fl
      → RtagReport fl (RtagTable g)
      → RtagReport fl (RtagTable g)
  update_rtag_delete g =
      rtag_delete fl cfg ⦃e = g.key_eq⦄ g.row_store g.request_key g.request_labels

  module _ (text : ℕ → CString) (ids : List ℕ) where
    unfoldable pub update_rtag_info_add :
        StatsRecord fl
        → RtagReportOf fl text ids rtag_info_kind
        → RtagReportOf fl text ids rtag_info_kind
    unfolding update_rtag_add
    update_rtag_info_add = update_rtag_add (rtag_grouping_of fl text ids rtag_info_kind)

    unfoldable pub update_rtag_info_delete :
        StatsRecord fl
        → RtagReportOf fl text ids rtag_info_kind
        → RtagReportOf fl text ids rtag_info_kind
    unfolding update_rtag_delete
    update_rtag_info_delete = update_rtag_delete (rtag_grouping_of fl text ids rtag_info_kind)

    unfoldable pub update_rtag2_info_add :
        StatsRecord fl
        → RtagReportOf fl text ids rtag2_info_kind
        → RtagReportOf fl text ids rtag2_info_kind
    unfolding update_rtag_add
    update_rtag2_info_add = update_rtag_add (rtag_grouping_of fl text ids rtag2_info_kind)

    unfoldable pub update_rtag2_info_delete :
        StatsRecord fl
        → RtagReportOf fl text ids rtag2_info_kind
        → RtagReportOf fl text ids rtag2_info_kind
    unfolding update_rtag_delete
    update_rtag2_info_delete = update_rtag_delete (rtag_grouping_of fl text ids rtag2_info_kind)

    unfoldable pub update_rtag_report_add :
        StatsRecord fl
        → RtagReportOf fl text ids rtag_report_kind
        → RtagReportOf fl text ids rtag_report_kind
    unfolding update_rtag_add
    update_rtag_report_add = update_rtag_add (rtag_grouping_of fl text ids rtag_report_kind)

    unfoldable pub update_rtag_report_delete :
        StatsRecord fl
        → RtagReportOf fl text ids rtag_report_kind
        → RtagReportOf fl text ids rtag_report_kind
    unfolding update_rtag_delete
    update_rtag_report_delete = update_rtag_delete (rtag_grouping_of fl text ids rtag_report_kind)

    unfoldable pub update_rtag2_report_add :
        StatsRecord fl
        → RtagReportOf fl text ids rtag2_report_kind
        → RtagReportOf fl text ids rtag2_report_kind
    unfolding update_rtag_add
    update_rtag2_report_add = update_rtag_add (rtag_grouping_of fl text ids rtag2_report_kind)

    unfoldable pub update_rtag2_report_delete :
        StatsRecord fl
        → RtagReportOf fl text ids rtag2_report_kind
        → RtagReportOf fl text ids rtag2_report_kind
    unfolding update_rtag_delete
    update_rtag2_report_delete = update_rtag_delete (rtag_grouping_of fl text ids rtag2_report_kind)

    unfoldable pub update_rtag_n_info_add :
        StatsRecord fl
        → RtagReportOf fl text ids rtag_n_info_kind
        → RtagReportOf fl text ids rtag_n_info_kind
    unfolding update_rtag_add
    update_rtag_n_info_add = update_rtag_add (rtag_grouping_of fl text ids rtag_n_info_kind)

    unfoldable pub update_rtag_n_info_delete :
        StatsRecord fl
        → RtagReportOf fl text ids rtag_n_info_kind
        → RtagReportOf fl text ids rtag_n_info_kind
    unfolding update_rtag_delete
    update_rtag_n_info_delete = update_rtag_delete (rtag_grouping_of fl text ids rtag_n_info_kind)

    unfoldable pub update_rtag_n_report_add :
        StatsRecord fl
        → RtagReportOf fl text ids rtag_n_report_kind
        → RtagReportOf fl text ids rtag_n_report_kind
    unfolding update_rtag_add
    update_rtag_n_report_add = update_rtag_add (rtag_grouping_of fl text ids rtag_n_report_kind)

    unfoldable pub update_rtag_n_report_delete :
        StatsRecord fl
        → RtagReportOf fl text ids rtag_n_report_kind
        → RtagReportOf fl text ids rtag_n_report_kind
    unfolding update_rtag_delete
    update_rtag_n_report_delete =
        update_rtag_delete (rtag_grouping_of fl text ids rtag_n_report_kind)

    -- The functions that the report is set up with.
    unfoldable pub rtag_add_func :
        (kind : RtagKind)
        → StatsRecord fl
        → RtagReportOf fl text ids kind
        → RtagReportOf fl text ids kind
    unfolding update_rtag_info_add update_rtag2_info_add update_rtag_report_add
        update_rtag2_report_add update_rtag_n_info_add update_rtag_n_report_add
    rtag_add_func rtag_info_kind = update_rtag_info_add
    rtag_add_func rtag2_info_kind = update_rtag2_info_add
    rtag_add_func rtag_report_kind = update_rtag_report_add
    rtag_add_func rtag2_report_kind = update_rtag2_report_add
    rtag_add_func rtag_n_info_kind = update_rtag_n_info_add
    rtag_add_func rtag_n_report_kind = update_rtag_n_report_add

    -- The functions that the report is set up with.
    unfoldable pub rtag_delete_func :
        (kind : RtagKind)
        → StatsRecord fl
        → RtagReportOf fl text ids kind
        → RtagReportOf fl text ids kind
    unfolding update_rtag_info_delete update_rtag2_info_delete update_rtag_report_delete
        update_rtag2_report_delete update_rtag_n_info_delete update_rtag_n_report_delete
    rtag_delete_func rtag_info_kind = update_rtag_info_delete
    rtag_delete_func rtag2_info_kind = update_rtag2_info_delete
    rtag_delete_func rtag_report_kind = update_rtag_report_delete
    rtag_delete_func rtag2_report_kind = update_rtag2_report_delete
    rtag_delete_func rtag_n_info_kind = update_rtag_n_info_delete
    rtag_delete_func rtag_n_report_kind = update_rtag_n_report_delete

    pub rtag_add_func-update_rtag_add :
        (kind : RtagKind) → rtag_add_func kind ≡ update_rtag_add (rtag_grouping_of fl text ids kind)
    unfolding rtag_add_func update_rtag_add update_rtag_info_add update_rtag2_info_add
        update_rtag_report_add update_rtag2_report_add update_rtag_n_info_add
        update_rtag_n_report_add
    rtag_add_func-update_rtag_add rtag_info_kind = refl
    rtag_add_func-update_rtag_add rtag2_info_kind = refl
    rtag_add_func-update_rtag_add rtag_report_kind = refl
    rtag_add_func-update_rtag_add rtag2_report_kind = refl
    rtag_add_func-update_rtag_add rtag_n_info_kind = refl
    rtag_add_func-update_rtag_add rtag_n_report_kind = refl

    pub rtag_delete_func-update_rtag_delete :
        (kind : RtagKind)
        → rtag_delete_func kind ≡ update_rtag_delete (rtag_grouping_of fl text ids kind)
    unfolding rtag_delete_func update_rtag_delete update_rtag_info_delete update_rtag2_info_delete
        update_rtag_report_delete update_rtag2_report_delete update_rtag_n_info_delete
        update_rtag_n_report_delete
    rtag_delete_func-update_rtag_delete rtag_info_kind = refl
    rtag_delete_func-update_rtag_delete rtag2_info_kind = refl
    rtag_delete_func-update_rtag_delete rtag_report_kind = refl
    rtag_delete_func-update_rtag_delete rtag2_report_kind = refl
    rtag_delete_func-update_rtag_delete rtag_n_info_kind = refl
    rtag_delete_func-update_rtag_delete rtag_n_report_kind = refl
