-- ===== src/TagReport/Window.antt =====
-- A tag report of src/data.cc over the live requests: a request enters at the end of the window
-- and leaves from its front.
use pinba_engine.Common.{
  All, Bool-cases, CString, Eq, List, Option, [], arith, inl, inr, length, nat_eq, string_eq, ◌++◌,
  ◌+◌, ◌-◌, ◌<◌, ◌^◌, ◌∷◌,
}
use pinba_engine.Time.{}
use pinba_engine.Floats.{Floats}
use pinba_engine.Histogram.{HistogramConfig}
use pinba_engine.Record.{StatsRecord}
use pinba_engine.Store.{Store}
use pinba_engine.TagReport.Members.{
  IsTimerNormal, Live, Unused, in_key, length-members-le, matching, members, members-Unused,
  members-snoc,
}
use pinba_engine.TagReport.Rows.{TagRowOk}
use pinba_engine.TagReport.Timers.{add_all-TagRowOk}
use pinba_engine.TagReport.Tables.{
  IsCounted, add_timers-IsCounted, add_timers-get, delete_timers-IsCounted, delete_timers-get,
}
use pinba_engine.TagReport.{TagReport, TagRow, Timer, add_timers, delete_timers}
use pinba_engine.TagReport.Leaving.{delete_all-TagRowOk}

module _ (fl : Floats) (cfg : HistogramConfig fl) {K : Type 0} ⦃e : Eq K⦄ (store : Store K TagRow)
    (key_of : StatsRecord fl → Timer → Option K)
    (labels_of : StatsRecord fl → Timer → List CString) where
  open store use {Table, get}

  -- Every group with timers of live requests has a row with the number of those requests and the
  -- sums of those timers, no other group has one, and the report counts its rows.
  pub record TagTracks (live : List (Live fl)) (report : TagReport Table) : Type 0 where
    pub rows : (k : K) → TagRowOk fl cfg (members key_of k live) (get report.results k)
    pub is_counted : IsCounted fl cfg store report

  All-matching :
      (key : Timer → Option K) (k : K) (ts : List Timer)
      → All IsTimerNormal ts
      → All IsTimerNormal (matching key k ts)
  All-matching key k [] h = tt
  All-matching key k (t ∷ ts) h = elim (Bool-cases (in_key k (key t))) [
    | inl yes_it_is ↦ rw yes_it_is (h.0, All-matching key k ts h.1)
    | inr no_match ↦ rw no_match (All-matching key k ts h.1)
  ]

  pub add_timers-TagTracks :
      (live : List (Live fl)) (report : TagReport Table) (r : Live fl)
      → TagTracks live report
      → Unused key_of r.request_id live
      → r.request_id < 2 ^ 64 - 1
      → length live + 1 < 2 ^ 64
      → All IsTimerNormal r.timers
      → TagTracks (live ++ r ∷ []) (
          add_timers fl cfg store
            (key_of r.request)
            (labels_of r.request)
            r.request_id
            r.timers
            report)
  add_timers-TagTracks live report r v u b c n = record {
    rows = λ k.
        rw
          (
            members-snoc key_of k live r,
            add_timers-get fl cfg store (key_of r.request) (labels_of r.request) r.request_id
                r.timers k report,
          )
          (add_all-TagRowOk fl cfg (members key_of k live) (get report.results k) r.request_id
            (labels_of r.request) (matching (key_of r.request) k r.timers) (v.rows k)
            (members-Unused key_of k r.request_id live u) b
            (omega (arith, length-members-le key_of k live))
            (All-matching (key_of r.request) k r.timers n));
    is_counted =
        add_timers-IsCounted fl cfg store (key_of r.request) (labels_of r.request) r.request_id
          r.timers report v.is_counted;
  }

  pub delete_timers-TagTracks :
      (live : List (Live fl)) (report : TagReport Table) (r : Live fl)
      → TagTracks (r ∷ live) report
      → Unused key_of r.request_id live
      → length live + 1 < 2 ^ 64
      → All IsTimerNormal r.timers
      → TagTracks live (
          delete_timers fl cfg store
            (key_of r.request)
            (labels_of r.request)
            r.request_id
            r.timers
            report)
  delete_timers-TagTracks live report r v u c n = record {
    rows = λ k.
        rw
          (delete_timers-get fl cfg store (key_of r.request) (labels_of r.request) r.request_id
            r.timers k report v.is_counted)
          (delete_all-TagRowOk fl cfg (members key_of k live) (get report.results k) r.request_id
            (matching (key_of r.request) k r.timers) (unfold members in v.rows k)
            (members-Unused key_of k r.request_id live u)
            (omega (arith, length-members-le key_of k live))
            (All-matching (key_of r.request) k r.timers n));
    is_counted =
        delete_timers-IsCounted fl cfg store (key_of r.request) (labels_of r.request) r.request_id
          r.timers report v.is_counted;
  }
