-- ===== src/TagReport/Leaving.antt =====
-- The timers of a request that leaves are taken out of a row of a tag report of src/data.cc.
use pinba_engine.Common.{
  ==_iff, All, Bool-cases, List, Option, [], ap, arith, false, inl, inr, length, nat_eq, none, refl,
  some, string_eq, sub64, suc, sym, ℕ, ◌++◌, ◌+◌, ◌<◌, ◌==◌, ◌^◌, ◌∙◌, ◌∷◌, ◌≡◌, ◌≢◌,
}
use pinba_engine.Floats.{Floats}
use pinba_engine.Histogram.{HistogramConfig}
use pinba_engine.TagReport.Members.{IsTimerNormal, Member, all_timers, cons_member}
use pinba_engine.TagReport.Rows.{IsTagRow, Sums, TagRowOk, last_id, recount-Sums, subtract-Sums}
use pinba_engine.TagReport.{TagRow, Timer, delete_timer, subtract_timer, uncount_request}
use pinba_engine.TagReport.Timers.{delete_all}

module _ (fl : Floats) (cfg : HistogramConfig fl) where
  -- A row while the timers of a request that leaves are taken out, the request being uncounted.
  record IsLeaving (id : ℕ) (ts : List Timer) (rest : List Member) (d : TagRow) : Type 0 where
    counted : d.req_count ≡ length rest
    sums : Sums fl cfg (ts ++ all_timers rest) d
    last_added : d.prev_add_request_id ≡ last_id d.prev_add_request_id rest
    uncounted : d.prev_del_request_id ≡ id

  uncounted_before :
      (id : ℕ) (d : TagRow) → id ≡ d.prev_del_request_id → uncount_request fl cfg id d ≡ d
  unfolding uncount_request
  uncounted_before id d e = rw ((==_iff id d.prev_del_request_id).1 e) refl

  not_uncounted :
      (id : ℕ) (d : TagRow)
      → d.prev_del_request_id ≢ id
      → uncount_request fl cfg id d
        ≡ record d { req_count = sub64 d.req_count 1; prev_del_request_id = id }
  unfolding uncount_request
  not_uncounted id d e = elim (Bool-cases (id == d.prev_del_request_id)) [
    | inl same ↦ absurd (e (sym ((==_iff id d.prev_del_request_id).0 same)))
    | inr other ↦ rw other refl
  ]

  some_left : (n k : ℕ) → n ≡ suc k → (n == 0) ≡ false
  some_left n k e = ground arith

  delete_next :
      (id : ℕ) (t : Timer) (ts : List Timer) (m : Member) (rest : List Member) (d : TagRow)
      → IsLeaving id (t ∷ ts) (m ∷ rest) d
      → IsTimerNormal t
      → (delete_timer fl cfg id t d ≡ some (subtract_timer fl cfg t d))
        × IsLeaving id ts (m ∷ rest) (subtract_timer fl cfg t d)
  unfolding delete_timer
  delete_next id t ts m rest d v n = (
    rw (uncounted_before id d (sym v.uncounted), some_left d.req_count (length rest) v.counted)
        refl,
    unfold subtract_timer in
        record {
          counted = v.counted;
          sums = fold_sums;
          last_added = v.last_added;
          uncounted = v.uncounted;
        },
  )
    where
      fold_sums : Sums fl cfg (ts ++ all_timers (m ∷ rest)) (subtract_timer fl cfg t d)
      fold_sums = subtract-Sums fl cfg (ts ++ all_timers (m ∷ rest)) d t v.sums n

  -- The row after the request is uncounted.
  abbrev uncounted_row : ℕ → TagRow → TagRow
  uncounted_row id d = record d { req_count = sub64 d.req_count 1; prev_del_request_id = id }

  delete_last :
      (id : ℕ) (t : Timer) (ts : List Timer) (d : TagRow)
      → IsTagRow fl cfg ((id, t ∷ ts) ∷ []) d
      → delete_timer fl cfg id t d ≡ none
  unfolding delete_timer
  delete_last id t ts d v = rw (not_uncounted id d (λ e. v.first_kept (sym e)), v.counted) refl

  delete_first :
      (id : ℕ) (t : Timer) (ts : List Timer) (m : Member) (rest : List Member) (d : TagRow)
      → IsTagRow fl cfg ((id, t ∷ ts) ∷ m ∷ rest) d
      → length rest + 2 < 2 ^ 64
      → IsTimerNormal t
      → (delete_timer fl cfg id t d ≡ some (subtract_timer fl cfg t (uncounted_row id d)))
        × IsLeaving id ts (m ∷ rest) (subtract_timer fl cfg t (uncounted_row id d))
  unfolding delete_timer all_timers
  delete_first id t ts m rest d v b n = (
    rw
        (
          not_uncounted id d (λ e. v.first_kept (sym e)),
          some_left (sub64 d.req_count 1) (length rest) (omega (arith, v.counted)),
        )
        refl,
    unfold subtract_timer in
        record {
          counted = omega (arith, v.counted);
          sums = fold_sums;
          last_added = v.last_added;
          uncounted = refl;
        },
  )
    where
      fold_sums :
          Sums fl cfg (ts ++ all_timers (m ∷ rest)) (subtract_timer fl cfg t (uncounted_row id d))
      fold_sums =
          subtract-Sums fl cfg (ts ++ all_timers (m ∷ rest)) (uncounted_row id d) t
            (recount-Sums fl cfg (t ∷ ts ++ all_timers (m ∷ rest)) d _ _ _ v.sums) n

  delete_all-none : (id : ℕ) (ts : List Timer) → delete_all fl cfg id ts none ≡ none
  unfolding delete_all
  delete_all-none id [] = refl
  delete_all-none id (t ∷ ts) = delete_all-none id ts

  delete_rest :
      (id : ℕ) (ts : List Timer) (m : Member) (rest : List Member) (d : TagRow)
      → IsLeaving id ts (m ∷ rest) d
      → m.0 ≢ id
      → All IsTimerNormal ts
      → TagRowOk fl cfg (m ∷ rest) (delete_all fl cfg id ts (some d))
  unfolding delete_all
  delete_rest id [] m rest d v u n = (
    omega arith,
    record {
      counted = v.counted;
      sums = v.sums;
      last_added = v.last_added;
      first_kept = λ e. u (e ∙ v.uncounted);
    },
  )
  delete_rest id (t ∷ ts) m rest d v u n =
      let next = delete_next id t ts m rest d v n.0 in
      rw next.0 (delete_rest id ts m rest _ next.1 u n.1)

  -- The oldest request of the row takes its timers out, and the row goes with the last request.
  pub delete_all-TagRowOk :
      (ms : List Member) (o : Option TagRow) (id : ℕ) (ts : List Timer)
      → TagRowOk fl cfg (cons_member id ts ms) o
      → All (λ (m : Member). m.0 ≢ id) ms
      → length ms + 1 < 2 ^ 64
      → All IsTimerNormal ts
      → TagRowOk fl cfg ms (delete_all fl cfg id ts o)
  unfolding delete_all
  delete_all-TagRowOk ms o id [] v u b n = v
  delete_all-TagRowOk ms none id (t ∷ ts) v u b n = absurd (omega (arith, ap length v))
  delete_all-TagRowOk [] (some d) id (t ∷ ts) v u b n =
      rw (delete_last id t ts d v.1, delete_all-none id ts) refl
  delete_all-TagRowOk (m ∷ rest) (some d) id (t ∷ ts) v u b n =
      let first = delete_first id t ts m rest d v.1 (omega arith) n.0 in
      rw first.0 (delete_rest id ts m rest _ first.1 u.0 n.1)
