-- ===== src/TagReport/Slide.antt =====
-- The updates of the tag reports by one and by two tags, src/data.cc, keep a report right about the
-- live requests.
use pinba_engine.Common.{
  All, CString, Eq, List, Option, Option-cases, [], ap, arith, false, inl, inr, length,
  length-append, nat_eq, none, refl, some, string_eq, sym, ℕ, ◌++◌, ◌+◌, ◌-◌, ◌<◌, ◌^◌, ◌∙◌, ◌∷◌,
  ◌≡◌, ◌≢◌,
}
use pinba_engine.Floats.{Floats}
use pinba_engine.Text.{append_truncated, append_truncated_fits, copy_truncated_fits}
use pinba_engine.Record.{StatsRecord}
use pinba_engine.TagReport.Groups.{
  append_key_delimiter, bar, find_tag, find_tags, host_index, host_words_index, with_word,
  with_words,
}
use pinba_engine.Pool.{Pool}
use pinba_engine.Histogram.{HistogramConfig}
use pinba_engine.Store.{Store}
use pinba_engine.TagReport.Updates.{
  RowTable, TagKind, grouping_of, tag2_info_kind, tag2_report2_kind, tag2_report_kind, tag_add_func,
  tag_add_func-update_tag_add, tag_delete_func, tag_delete_func-update_tag_delete, tag_info_kind,
  tag_report2_kind, tag_report_kind, update_tag_add, update_tag_delete,
}
use pinba_engine.TagReport.Members.{IsTimerNormal, Live}
use pinba_engine.TagReport.Window.{TagTracks, add_timers-TagTracks, delete_timers-TagTracks}
use pinba_engine.TagReport.{TagReport, TagRow, Timer, delete_timers, tag_predates, timers_of}

-- The names of the host and the server are those of a valid request.
pub record IsNamed {fl : Floats} (r : StatsRecord fl) : Type 0 where
  pub hostname_short : length r.hostname < 65
  pub server_short : length r.server_name < 65

abbrev join : CString → CString → CString
join b s = (b ++ bar ∷ []) ++ s

length-join : (b s : CString) → length (join b s) ≡ length b + 1 + length s
length-join b s = omega (arith, length-append (b ++ bar ∷ []) s, length-append b (bar ∷ []))

append_bar_fits :
    (n : ℕ) (b s : CString)
    → length b + 1 + length s < n
    → n < 2 ^ 64
    → append_truncated n (b ++ bar ∷ []) s ≡ join b s
append_bar_fits n b s h c =
    append_truncated_fits n (b ++ bar ∷ []) s (omega (arith, length-append b (bar ∷ []))) c

append_key_delimiter_fits :
    (n : ℕ) (b : CString) → length b + 1 < n → append_key_delimiter n b ≡ b ++ bar ∷ []
unfolding append_key_delimiter
append_key_delimiter_fits n b h = ground arith

delimited_fits :
    (n : ℕ) (b s : CString)
    → length b + 1 + length s < n
    → n < 2 ^ 64
    → append_truncated n (append_key_delimiter n b) s ≡ join b s
delimited_fits n b s h c =
    rw (append_key_delimiter_fits n b (omega arith)) (append_bar_fits n b s h c)

module _ {fl : Floats} (n : ℕ) (r : StatsRecord fl) (v : IsNamed r) (b : 300 < n)
    (c : n < 2 ^ 64) where
  -- An index that fits its buffer does not depend on the buffer's size.
  host_index_fits :
      (w : CString) → length w < 65 → host_index n r w ≡ join (join r.hostname r.server_name) w
  unfolding host_index
  host_index_fits w h =
      let first = length-join r.hostname r.server_name in
      rw
        (
          copy_truncated_fits n r.hostname (omega (arith, v.hostname_short)) c,
          append_bar_fits n r.hostname r.server_name
              (omega (arith, v.hostname_short, v.server_short)) c,
        )
        (append_bar_fits n (join r.hostname r.server_name) w
          (omega (arith, first, v.hostname_short, v.server_short)) c)

  host_words_index_fits :
      (w1 w2 : CString)
      → length w1 < 65
      → length w2 < 65
      → host_words_index n r w1 w2 ≡ join (join (join r.hostname r.server_name) w1) w2
  unfolding host_words_index
  host_words_index_fits w1 w2 h1 h2 =
      let first = length-join r.hostname r.server_name in
      let second = length-join (join r.hostname r.server_name) w1 in
      rw
        (
          copy_truncated_fits n r.hostname (omega (arith, v.hostname_short)) c,
          delimited_fits n r.hostname r.server_name
              (omega (arith, v.hostname_short, v.server_short)) c,
          delimited_fits n (join r.hostname r.server_name) w1
              (omega (arith, first, v.hostname_short, v.server_short)) c,
        )
        (delimited_fits n (join (join r.hostname r.server_name) w1) w2
          (omega (arith, first, second, v.hostname_short, v.server_short)) c)

module _ (text : ℕ → CString) (id1 id2 : ℕ) {A : Type 0} (t : Timer) where
  with_word-cong :
      (f g : CString → A)
      → ((a : ℕ) → f (text a) ≡ g (text a))
      → with_word text id1 id2 f t ≡ with_word text id1 id2 g t
  with_word-cong f g h = elim (Option-cases (find_tag id1 t.timer_tags)) [
    | inl no_tag ↦ rw (with_word, no_tag) refl
    | inr (a, has_tag) ↦ rw (with_word, has_tag) (ap some (h a))
  ]

  with_words-cong :
      (f g : CString → CString → A)
      → ((a b : ℕ) → f (text a) (text b) ≡ g (text a) (text b))
      → with_words text id1 id2 f t ≡ with_words text id1 id2 g t
  with_words-cong f g h = elim (Option-cases (find_tags id1 id2 t.timer_tags none none)) [
    | inl no_tag ↦ rw (with_words, no_tag) refl
    | inr ((a, b), has_tag) ↦ rw (with_words, has_tag) (ap some (h a b))
  ]

module _ (fl : Floats) (text : ℕ → CString) (id1 id2 : ℕ) where
  -- A row is deleted under the key that it was added under.
  delete_key-add_key :
      (kind : TagKind) (r : StatsRecord fl) (t : Timer)
      → IsNamed r
      → ((v : ℕ) → length (text v) < 65)
      → (grouping_of fl text id1 id2 kind).delete_key r t
        ≡ (grouping_of fl text id1 id2 kind).add_key r t
  delete_key-add_key tag_info_kind r t v h = refl
  delete_key-add_key tag2_info_kind r t v h = refl
  delete_key-add_key tag_report_kind r t v h = refl
  delete_key-add_key tag2_report_kind r t v h = refl
  delete_key-add_key tag_report2_kind r t v h =
      with_word-cong text id1 id2 t (λ w. (r.script_name, host_index 327 r w))
        (λ w. (r.script_name, host_index 389 r w))
        λ a.
          ap (λ i. (r.script_name, i))
            (host_index_fits 327 r v (omega arith) (omega arith) (text a) (h a)
              ∙ sym (host_index_fits 389 r v (omega arith) (omega arith) (text a) (h a)))
  delete_key-add_key tag2_report2_kind r t v h =
      with_words-cong text id1 id2 t (λ w1 w2. (r.script_name, host_words_index 392 r w1 w2))
        (λ w1 w2. (r.script_name, host_words_index 394 r w1 w2))
        λ a b.
          ap (λ i. (r.script_name, i))
            (host_words_index_fits 392 r v (omega arith) (omega arith) (text a) (text b) (h a) (h b)
              ∙ sym (
                  host_words_index_fits 394 r v (omega arith) (omega arith) (text a) (text b) (h a)
                    (h b)))

module _ (fl : Floats) (cfg : HistogramConfig fl) {K : Type 0} ⦃e : Eq K⦄
    (store : Store K TagRow) where
  delete_timers-cong :
      (key key' : Timer → Option K) (labels : Timer → List CString) (id : ℕ) (ts : List Timer)
      (report : TagReport store.Table)
      → ((t : Timer) → key t ≡ key' t)
      → delete_timers fl cfg store key labels id ts report
        ≡ delete_timers fl cfg store key' labels id ts report
  unfolding delete_timers
  delete_timers-cong key key' labels id [] report h = refl
  delete_timers-cong key key' labels id (t ∷ ts) report h =
      rw (h t) (delete_timers-cong key key' labels id ts _ h)

module _ (fl : Floats) (cfg : HistogramConfig fl) (text : ℕ → CString) (id1 id2 : ℕ)
    (kind : TagKind) where
  -- The report of the kind says of the live requests what it should.
  abbrev pub TracksTags :
      List (Live fl) → TagReport (RowTable (grouping_of fl text id1 id2 kind)) → Type 0
  TracksTags =
      let g = grouping_of fl text id1 id2 kind in
      TagTracks fl cfg ⦃e = g.key_eq⦄ g.row_store g.add_key g.new_labels

  -- Adding a request to a tag report by one or two tags, of any of the six kinds, that is right
  -- about fewer than 2^64 - 1 live requests, gives a report that is right about that request too:
  -- every group has the number of its requests, each counted once however many timers it has there,
  -- and the hits, times and histogram of its timers. The request's id is that of no live request
  -- and below 2^64 - 1, its timers are those in the pool, and their times are normal.
  pub tag_add_func-TracksTags :
      (live : List (Live fl)) (pool : Pool Timer)
      (report : TagReport (RowTable (grouping_of fl text id1 id2 kind))) (r : Live fl)
      → TracksTags live report
      → timers_of pool r.request ≡ r.timers
      → All (λ (q : Live fl). q.request_id ≢ r.request_id) live
      → r.request_id < 2 ^ 64 - 1
      → length live + 1 < 2 ^ 64
      → All IsTimerNormal r.timers
      → TracksTags
          (live ++ r ∷ [])
          (tag_add_func fl cfg text id1 id2 kind r.request_id pool r.request report)
  unfolding update_tag_add
  tag_add_func-TracksTags live pool report r v same u b c n =
      let g = grouping_of fl text id1 id2 kind in
      rw (tag_add_func-update_tag_add fl cfg text id1 id2 kind, same)
        (add_timers-TagTracks fl cfg ⦃e = g.key_eq⦄ g.row_store g.add_key g.new_labels live report r
          v u b c n)

  -- Deleting the oldest live request from a report that is right about it and the others gives a
  -- report that is right about the others, and a row goes with its last request. The request is not
  -- older than the report, its id is that of no other live request, fewer than 2^64 - 1 others are
  -- live, its timers are those in the pool, with normal times, and the names of its host and server
  -- and all words are shorter than 65 bytes.
  pub tag_delete_func-TracksTags :
      (live : List (Live fl)) (pool : Pool Timer)
      (report : TagReport (RowTable (grouping_of fl text id1 id2 kind))) (r : Live fl)
      → TracksTags (r ∷ live) report
      → timers_of pool r.request ≡ r.timers
      → tag_predates report r.request ≡ false
      → IsNamed r.request
      → ((a : ℕ) → length (text a) < 65)
      → All (λ (q : Live fl). q.request_id ≢ r.request_id) live
      → length live + 1 < 2 ^ 64
      → All IsTimerNormal r.timers
      → TracksTags live
          (tag_delete_func fl cfg text id1 id2 kind r.request_id pool r.request report)
  unfolding update_tag_delete
  tag_delete_func-TracksTags live pool report r v same old named short u c n =
      let g = grouping_of fl text id1 id2 kind in
      rw
        (
          tag_delete_func-update_tag_delete fl cfg text id1 id2 kind,
          old,
          same,
          delete_timers-cong fl cfg ⦃e = g.key_eq⦄ g.row_store (g.delete_key r.request)
              (g.add_key r.request) (g.new_labels r.request) r.request_id r.timers report
              (λ t. delete_key-add_key fl text id1 id2 kind r.request t named short),
        )
        (delete_timers-TagTracks fl cfg ⦃e = g.key_eq⦄ g.row_store g.add_key g.new_labels live
          report r v u c n)
