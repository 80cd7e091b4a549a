-- ===== src/RtagReport/Window.antt =====
-- A request tag report of src/data.cc over the live requests.
use pinba_engine.Common.{
  Bool, Eq, List, Option, [], ap, false, nat_eq, none, refl, some, string_eq, true, ◌%◌, ◌++◌, ◌+ℤ◌,
  ◌^◌, ◌∙◌, ◌∷◌, ◌≡◌,
}
use pinba_engine.Time.{Timeval, micros}
use pinba_engine.Floats.{Floats}
use pinba_engine.Histogram.{HistogramConfig}
use pinba_engine.Record.{StatsRecord}
use pinba_engine.Store.{Store}
use pinba_engine.Report.Sums.{SumsTo}
use pinba_engine.Report.Spec.{total, total-snoc}
use pinba_engine.Report.Rows.{RowOk}
use pinba_engine.Report.{Label, ReportData}
use pinba_engine.RtagReport.{RtagReport}

abbrev pub is_some : {A : Type 0} → Option A → Bool
is_some none = false
is_some (some a) = true

module _ (fl : Floats) (cfg : HistogramConfig fl) {K : Type 0} ⦃e : Eq K⦄
    (store : Store K (ReportData fl)) (key_of : StatsRecord fl → Option K)
    (labels_of : StatsRecord fl → List Label) where
  open store use {Table, IsTable, get, put, remove, entries}

  abbrev pub has_key : K → Option K → Bool
  has_key k none = false
  has_key k (some j) = e.beq j k

  -- The request is in the group, or in any.
  abbrev pub in_rows_of : K → StatsRecord fl → Bool
  in_rows_of k r = has_key k (key_of r)

  abbrev pub has_group : StatsRecord fl → Bool
  has_group r = is_some (key_of r)

  -- The report says of every group what the live requests of that group add up to, has a row for
  -- the groups with live requests and for no other, counts its rows, and totals the requests that
  -- are in a group.
  pub record RtagTracks (live : List (StatsRecord fl)) (report : RtagReport fl Table) : Type 0 where
    pub rows : (k : K) → RowOk fl cfg (in_rows_of k) live (get report.results k)
    pub is_table : IsTable report.results
    pub rows_counted : report.results_cnt ≡ entries report.results % 2 ^ 64
    pub time_sum : SumsTo report.time_total (total has_group (λ r. r.req_time) live)
    pub ru_utime_sum : SumsTo report.ru_utime_total (total has_group (λ r. r.ru_utime) live)
    pub ru_stime_sum : SumsTo report.ru_stime_total (total has_group (λ r. r.ru_stime) live)

  pub has_group-some : (r : StatsRecord fl) (k : K) → key_of r ≡ some k → has_group r ≡ true
  has_group-some r k h = ap is_some h

  pub in_rows-some : (r : StatsRecord fl) (j k : K) → key_of r ≡ some j → in_rows_of k r ≡ e.beq j k
  in_rows-some r j k h = ap (has_key k) h

  -- Whatever is true of a list with a request at the end is true of one with it in front.
  pub total-last :
      (p : StatsRecord fl → Bool) (f : StatsRecord fl → Timeval) (live : List (StatsRecord fl))
      (r : StatsRecord fl)
      → p r ≡ true
      → total p f (live ++ r ∷ []) ≡ micros (f r) +ℤ total p f live
  total-last p f live r h = total-snoc p f live r ∙ rw h refl

  pub total-last_other :
      (p : StatsRecord fl → Bool) (f : StatsRecord fl → Timeval) (live : List (StatsRecord fl))
      (r : StatsRecord fl)
      → p r ≡ false
      → total p f (live ++ r ∷ []) ≡ total p f live
  total-last_other p f live r h = total-snoc p f live r ∙ rw h refl
