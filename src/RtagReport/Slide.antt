-- ===== src/RtagReport/Slide.antt =====
-- The updates of the request tag reports, src/data.cc, keep a report right about the live requests.
use pinba_engine.Common.{
  CString, List, [], false, length, nat_eq, string_eq, ℕ, ◌++◌, ◌-◌, ◌<◌, ◌^◌, ◌∷◌, ◌≡◌,
}
use pinba_engine.Floats.{Floats}
use pinba_engine.Histogram.{HistogramConfig}
use pinba_engine.Record.{IsTimed, StatsRecord}
use pinba_engine.RtagReport.Updates.{
  RtagKind, RtagReportOf, rtag_add_func, rtag_add_func-update_rtag_add, rtag_delete_func,
  rtag_delete_func-update_rtag_delete, rtag_grouping_of, update_rtag_add, update_rtag_delete,
}
use pinba_engine.RtagReport.Window.{RtagTracks}
use pinba_engine.RtagReport.Add.{RtagChange, rtag_add-RtagTracks, rtag_add-change}
use pinba_engine.RtagReport.Delete.{rtag_delete-RtagTracks}
use pinba_engine.RtagReport.{rtag_predates}

module _ (fl : Floats) (cfg : HistogramConfig fl) (text : ℕ → CString) (ids : List ℕ)
    (kind : RtagKind) where
  -- The report of the kind says of the live requests what it should.
  abbrev pub TracksRtags : List (StatsRecord fl) → RtagReportOf fl text ids kind → Type 0
  TracksRtags =
      let g = rtag_grouping_of fl text ids kind in
      RtagTracks fl cfg ⦃e = g.key_eq⦄ g.row_store g.request_key g.request_labels

  -- What adding a request changes in the floating-point sums and the rows.
  abbrev pub ChangesRtags :
      StatsRecord fl → RtagReportOf fl text ids kind → RtagReportOf fl text ids kind → Type 0
  ChangesRtags r =
      let g = rtag_grouping_of fl text ids kind in
      RtagChange fl cfg ⦃e = g.key_eq⦄ g.row_store g.request_key g.request_labels r
        (g.request_key r)

  -- Adding a request with normal times to a request tag report, of any of the six kinds, that is
  -- right about fewer than 2^64 - 1 live requests gives a report that is right about that request
  -- too. A request without the report's tags changes nothing. With them, the document size and the
  -- memory footprint are added to the sums of the row, a new one starting from 0, and to those of
  -- the report; a new row has the request's labels and an old one keeps its own; every other row is
  -- as it was.
  pub rtag_add_func-TracksRtags :
      (live : List (StatsRecord fl)) (report : RtagReportOf fl text ids kind) (r : StatsRecord fl)
      → TracksRtags live report
      → IsTimed r
      → length live < 2 ^ 64 - 1
      → let report' = rtag_add_func fl cfg text ids kind r report in
        TracksRtags (live ++ r ∷ []) report' × ChangesRtags r report report'
  unfolding update_rtag_add
  rtag_add_func-TracksRtags live report r v t b =
      let g = rtag_grouping_of fl text ids kind in
      rw (rtag_add_func-update_rtag_add fl cfg text ids kind) (
        rtag_add-RtagTracks fl cfg ⦃e = g.key_eq⦄ g.row_store g.request_key g.request_labels live
            report r v t b,
        rtag_add-change fl cfg ⦃e = g.key_eq⦄ g.row_store g.request_key g.request_labels report r,
      )

  -- Deleting the oldest live request, with normal times and not older than the report, from a
  -- report that is right about it and fewer than 2^64 - 1 others gives a report that is right about
  -- the others.
  pub rtag_delete_func-TracksRtags :
      (live : List (StatsRecord fl)) (report : RtagReportOf fl text ids kind) (r : StatsRecord fl)
      → TracksRtags (r ∷ live) report
      → IsTimed r
      → length live < 2 ^ 64 - 1
      → rtag_predates report r ≡ false
      → TracksRtags live (rtag_delete_func fl cfg text ids kind r report)
  unfolding update_rtag_delete
  rtag_delete_func-TracksRtags live report r v t b old =
      let g = rtag_grouping_of fl text ids kind in
      rw (rtag_delete_func-update_rtag_delete fl cfg text ids kind) (
        rtag_delete-RtagTracks fl cfg ⦃e = g.key_eq⦄ g.row_store g.request_key g.request_labels live
          report r v t b old)
