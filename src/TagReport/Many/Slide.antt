-- ===== src/TagReport/Many/Slide.antt =====
-- The updates of the tag reports by any number of tags, src/data.cc, keep a report right about the
-- live requests, as long as no timer has a tag twice.
use pinba_engine.Common.{
  All, Bool-cases, CString, Distinct, List, Option, [], ap, false, if◌then◌else◌, inl, inr, length,
  ltb, map, nat_eq, none, refl, some, string_eq, ℕ, ◌&&◌, ◌++◌, ◌+◌, ◌-◌, ◌<◌, ◌^◌, ◌∷◌, ◌≡◌, ◌≢◌,
}
use pinba_engine.Time.{}
use pinba_engine.Floats.{Floats}
use pinba_engine.Histogram.{HistogramConfig}
use pinba_engine.Record.{StatsRecord}
use pinba_engine.Pool.{Pool}
use pinba_engine.Store.{}
use pinba_engine.TagReport.Groups.{find_all}
use pinba_engine.TagReport.Members.{IsTimerNormal, Live}
use pinba_engine.TagReport.Window.{TagTracks, add_timers-TagTracks, delete_timers-TagTracks}
use pinba_engine.TagReport.Many.{
  WideGrouping, WideKind, WideReport, WideTable, search_timer, update_wide_add, update_wide_delete,
  wide_add_at, wide_add_timers, wide_delete_at, wide_delete_timers, wide_grouping_of,
}
use pinba_engine.TagReport.Many.Scan.{search_words_lem}
use pinba_engine.TagReport.{
  TagReport, TagRow, Timer, add_at, add_timers, delete_at, delete_timer, delete_timers, store_row,
  tag_predates, timers_of,
}
use pinba_engine.TagReport.Many.Kinds.{
  WideReportOf, wide_add_func, wide_add_func-update_wide_add, wide_delete_func,
  wide_delete_func-update_wide_delete,
}

-- The tags of a timer have different names.
abbrev pub TagsOnce : Timer → Type 0
TagsOnce t = Distinct t.timer_tags

module _ (fl : Floats) (cfg : HistogramConfig fl) (text : ℕ → CString) (ids : List ℕ)
    (g : WideGrouping fl) where
  -- The words of a timer, looked up one by one.
  unfoldable pub words_of : Timer → Option (List ℕ)
  words_of t =
      if g.counts_first && ltb (length t.timer_tags) (length ids)
      then none
      else find_all ids t.timer_tags

  unfoldable pub wide_key : StatsRecord fl → Timer → Option g.RowKey
  wide_key r t = elim (words_of t) [ none ↦ none | some vs ↦ some (g.key_of_words r (map text vs)) ]

  unfoldable pub wide_labels : StatsRecord fl → Timer → List CString
  wide_labels r t = elim (words_of t) [ none ↦ [] | some vs ↦ g.labels_of_words r (map text vs) ]

  search_timer_lem :
      (words : List ℕ) (t : Timer)
      → length words ≡ length ids
      → TagsOnce t
      → ((search_timer fl cfg text ids g words t).1 ≡ words_of t)
        × (length (search_timer fl cfg text ids g words t).0 ≡ length ids)
  unfolding search_timer words_of
  search_timer_lem words t h d =
      elim (Bool-cases (g.counts_first && ltb (length t.timer_tags) (length ids))) [
        | inl few ↦ rw few (refl, h)
        | inr enough ↦ rw enough (search_words_lem ids words t.timer_tags h d)
      ]

  wide_key_is :
      (r : StatsRecord fl) (t : Timer) (o : Option (List ℕ))
      → words_of t ≡ o
      → wide_key r t ≡ elim o [ none ↦ none | some vs ↦ some (g.key_of_words r (map text vs)) ]
  unfolding wide_key
  wide_key_is r t none e = rw (wide_key, e) refl
  wide_key_is r t (some vs) e = rw (wide_key, e) refl

  wide_labels_are :
      (r : StatsRecord fl) (t : Timer) (vs : List ℕ)
      → words_of t ≡ some vs
      → wide_labels r t ≡ g.labels_of_words r (map text vs)
  unfolding wide_labels
  wide_labels_are r t vs e = rw (wide_labels, e) refl

  -- A deletion needs no labels.
  store_row_any :
      (r : StatsRecord fl) (k : g.RowKey) (report : TagReport (WideTable g)) (o : Option TagRow)
      → store_row fl cfg ⦃e = g.key_eq⦄ g.row_store (wide_key r) (wide_labels r) k report o
        ≡ store_row fl cfg ⦃e = g.key_eq⦄ g.row_store (λ t. none) (λ t. []) k report o
  unfolding store_row
  store_row_any r k report none = refl
  store_row_any r k report (some d) = refl

  delete_at_any :
      (id : ℕ) (r : StatsRecord fl) (t : Timer) (k : g.RowKey) (report : TagReport (WideTable g))
      (o : Option TagRow)
      → delete_at fl cfg ⦃e = g.key_eq⦄ g.row_store (wide_key r) (wide_labels r) id t k report o
        ≡ delete_at fl cfg ⦃e = g.key_eq⦄ g.row_store (λ t. none) (λ t. []) id t k report o
  unfolding delete_at
  delete_at_any id r t k report none = refl
  delete_at_any id r t k report (some d) = store_row_any r k report (delete_timer fl cfg id t d)

  wide_add_at_lem :
      (id : ℕ) (r : StatsRecord fl) (t : Timer) (ts : List Timer) (report : TagReport (WideTable g))
      (o : Option (List ℕ))
      → words_of t ≡ o
      → add_timers fl cfg ⦃e = g.key_eq⦄ g.row_store (wide_key r) (wide_labels r) id (t ∷ ts) report
        ≡ add_timers fl cfg ⦃e = g.key_eq⦄ g.row_store
            (wide_key r)
            (wide_labels r)
            id
            ts
            (wide_add_at fl cfg text ids g id r t report o)
  unfolding add_timers wide_add_at add_at
  wide_add_at_lem id r t ts report none e = rw (wide_key_is r t none e) refl
  wide_add_at_lem id r t ts report (some vs) e =
      rw (wide_key_is r t (some vs) e, wide_labels_are r t vs e) refl

  wide_delete_at_lem :
      (id : ℕ) (r : StatsRecord fl) (t : Timer) (ts : List Timer) (report : TagReport (WideTable g))
      (o : Option (List ℕ))
      → words_of t ≡ o
      → delete_timers fl cfg ⦃e = g.key_eq⦄ g.row_store
          (wide_key r)
          (wide_labels r)
          id
          (t ∷ ts)
          report
        ≡ delete_timers fl cfg ⦃e = g.key_eq⦄ g.row_store
            (wide_key r)
            (wide_labels r)
            id
            ts
            (wide_delete_at fl cfg text ids g id r t report o)
  unfolding delete_timers wide_delete_at
  wide_delete_at_lem id r t ts report none e = rw (wide_key_is r t none e) refl
  wide_delete_at_lem id r t ts report (some vs) e = rw (wide_key_is r t (some vs) e) (
      ap (delete_timers fl cfg ⦃e = g.key_eq⦄ g.row_store (wide_key r) (wide_labels r) id ts) (
        delete_at_any id r t (g.key_of_words r (map text vs)) report
          (g.row_store.get report.results (g.key_of_words r (map text vs)))))

  -- The report that is left is the one that the words, looked up one by one, give.
  wide_add_timers_lem :
      (id : ℕ) (r : StatsRecord fl) (ts : List Timer) (report : WideReport (WideTable g))
      → length report.words ≡ length ids
      → All TagsOnce ts
      → let report' = wide_add_timers fl cfg text ids g id r ts report in
        (report'.tag_part
          ≡ add_timers fl cfg ⦃e = g.key_eq⦄ g.row_store
              (wide_key r)
              (wide_labels r)
              id
              ts
              report.tag_part)
        × (length report'.words ≡ length ids)
  unfolding wide_add_timers
  wide_add_timers_lem id r [] report h d = unfold wide_add_timers add_timers in (refl, h)
  wide_add_timers_lem id r (t ∷ ts) report h d =
      let found = search_timer_lem report.words t h d.0 in
      rw (wide_add_at_lem id r t ts report.tag_part (words_of t) refl, ← found.0)
        (wide_add_timers_lem id r ts _ found.1 d.1)

  wide_delete_timers_lem :
      (id : ℕ) (r : StatsRecord fl) (ts : List Timer) (report : WideReport (WideTable g))
      → length report.words ≡ length ids
      → All TagsOnce ts
      → let report' = wide_delete_timers fl cfg text ids g id r ts report in
        (report'.tag_part
          ≡ delete_timers fl cfg ⦃e = g.key_eq⦄ g.row_store
              (wide_key r)
              (wide_labels r)
              id
              ts
              report.tag_part)
        × (length report'.words ≡ length ids)
  unfolding wide_delete_timers
  wide_delete_timers_lem id r [] report h d = unfold wide_delete_timers delete_timers in (refl, h)
  wide_delete_timers_lem id r (t ∷ ts) report h d =
      let found = search_timer_lem report.words t h d.0 in
      rw (wide_delete_at_lem id r t ts report.tag_part (words_of t) refl, ← found.0)
        (wide_delete_timers_lem id r ts _ found.1 d.1)

module _ (fl : Floats) (cfg : HistogramConfig fl) (text : ℕ → CString) (ids : List ℕ)
    (kind : WideKind) where
  -- The report of the kind says of the live requests what it should, and has its words.
  pub record TracksWords (live : List (Live fl)) (report : WideReportOf fl kind) : Type 0 where
    pub tracks :
        (let g = wide_grouping_of fl kind in
          TagTracks fl cfg ⦃e = g.key_eq⦄ g.row_store
            (wide_key fl cfg text ids g)
            (wide_labels fl cfg text ids g)
            live
            report.tag_part)
    pub words_there : length report.words ≡ length ids

  -- Adding a request to a tag report by any number of tags, of any of the three kinds, gives a
  -- report that is right about that request and the live ones, if no timer of the request has a tag
  -- twice: the words that earlier timers left in the report do not matter. The request's id is that
  -- of no live request and below 2^64 - 1, fewer than 2^64 - 1 requests are live, its timers are
  -- those in the pool, and their times are normal.
  pub wide_add_func-TracksWords :
      (live : List (Live fl)) (pool : Pool Timer) (report : WideReportOf fl kind) (r : Live fl)
      → TracksWords live report
      → timers_of pool r.request ≡ r.timers
      → All TagsOnce r.timers
      → All (λ (q : Live fl). q.request_id ≢ r.request_id) live
      → r.request_id < 2 ^ 64 - 1
      → length live + 1 < 2 ^ 64
      → All IsTimerNormal r.timers
      → TracksWords
          (live ++ r ∷ [])
          (wide_add_func fl cfg text ids kind r.request_id pool r.request report)
  unfolding update_wide_add
  wide_add_func-TracksWords live pool report r v same once u b c n =
      let g = wide_grouping_of fl kind in
      let result =
        wide_add_timers_lem fl cfg text ids g r.request_id r.request r.timers report v.words_there
          once in
      rw (wide_add_func-update_wide_add fl cfg text ids kind, same)
        (record {
          tracks = rw result.0 (
              add_timers-TagTracks fl cfg ⦃e = g.key_eq⦄ g.row_store (wide_key fl cfg text ids g)
                (wide_labels fl cfg text ids g) live report.tag_part r v.tracks u b c n);
          words_there = result.1;
        })

  -- Deleting the oldest live request from a report that is right about it and the others gives a
  -- report that is right about the others, if no timer of the request has a tag twice. The request
  -- is not older than the report, its id is that of no other live request, fewer than 2^64 - 1
  -- others are live, and its timers are those in the pool, with normal times.
  pub wide_delete_func-TracksWords :
      (live : List (Live fl)) (pool : Pool Timer) (report : WideReportOf fl kind) (r : Live fl)
      → TracksWords (r ∷ live) report
      → timers_of pool r.request ≡ r.timers
      → All TagsOnce r.timers
      → tag_predates report.tag_part r.request ≡ false
      → All (λ (q : Live fl). q.request_id ≢ r.request_id) live
      → length live + 1 < 2 ^ 64
      → All IsTimerNormal r.timers
      → TracksWords live (wide_delete_func fl cfg text ids kind r.request_id pool r.request report)
  unfolding update_wide_delete
  wide_delete_func-TracksWords live pool report r v same once old u c n =
      let g = wide_grouping_of fl kind in
      let result =
        wide_delete_timers_lem fl cfg text ids g r.request_id r.request r.timers report
          v.words_there once in
      rw (wide_delete_func-update_wide_delete fl cfg text ids kind, old, same)
        (record {
          tracks = rw result.0 (
              delete_timers-TagTracks fl cfg ⦃e = g.key_eq⦄ g.row_store (wide_key fl cfg text ids g)
                (wide_labels fl cfg text ids g) live report.tag_part r v.tracks u c n);
          words_there = result.1;
        })
