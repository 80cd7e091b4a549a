-- ===== src/TagReport/Timers.antt =====
-- The timers of one request that fall in one group, in a row of a tag report of src/data.cc.
use pinba_engine.Common.{
  ==_iff, All, Bool-cases, CString, List, Option, [], add64, ap, append-nil, append_assoc, arith,
  inl, inr, length, length-append, nat_eq, none, refl, some, string_eq, sym, ℕ, ◌++◌, ◌+◌, ◌-◌, ◌<◌,
  ◌==◌, ◌^◌, ◌∙◌, ◌∷◌, ◌≡◌, ◌≢◌,
}
use pinba_engine.Floats.{Floats}
use pinba_engine.Histogram.{HistogramConfig}
use pinba_engine.TagReport.Members.{
  IsTimerNormal, Member, all_timers, all_timers-append, cons_member,
}
use pinba_engine.TagReport.Rows.{
  FirstIsNot-append, FirstIsNot-last, IsTagRow, TagRowOk, add-Sums, last_id-Unused, last_id-snoc,
  new-Sums, recount-Sums,
}
use pinba_engine.TagReport.{
  TagRow, Timer, add_timer, add_usage, add_value, count_request, delete_timer, new_tag_row,
}

all_timers-last :
    (ms : List Member) (id : ℕ) (us : List Timer) (t : Timer)
    → all_timers (ms ++ (id, us ++ t ∷ []) ∷ []) ≡ all_timers (ms ++ (id, us) ∷ []) ++ t ∷ []
unfolding all_timers
all_timers-last [] id us t = append-nil (us ++ t ∷ []) ∙ ap (λ l. l ++ t ∷ []) (sym (append-nil us))
all_timers-last ((i, ts) ∷ ms) id us t =
    rw (all_timers-last ms id us t)
      (sym (append_assoc ts (all_timers (ms ++ (id, us) ∷ [])) (t ∷ [])))

module _ (fl : Floats) (cfg : HistogramConfig fl) where
  -- What the timers of a request do to the row of a group they are all in.
  unfoldable pub add_all : ℕ → (Timer → List CString) → List Timer → Option TagRow → Option TagRow
  add_all id labels [] o = o
  add_all id labels (t ∷ ts) o = add_all id labels ts (some (add_timer fl cfg id (labels t) t o))

  unfoldable pub delete_all : ℕ → List Timer → Option TagRow → Option TagRow
  delete_all id [] o = o
  delete_all id (t ∷ ts) o =
      delete_all id ts (elim o [ none ↦ none | some d ↦ delete_timer fl cfg id t d ])

  counted_before :
      (id : ℕ) (d : TagRow) → id ≡ d.prev_add_request_id → count_request fl cfg id d ≡ d
  unfolding count_request
  counted_before id d e = rw ((==_iff id d.prev_add_request_id).1 e) refl

  not_counted :
      (id : ℕ) (d : TagRow)
      → d.prev_add_request_id ≢ id
      → count_request fl cfg id d
        ≡ record d { req_count = add64 d.req_count 1; prev_add_request_id = id }
  unfolding count_request
  not_counted id d e = elim (Bool-cases (id == d.prev_add_request_id)) [
    | inl same ↦ absurd (e (sym ((==_iff id d.prev_add_request_id).0 same)))
    | inr other ↦ rw other refl
  ]

  all_timers-new :
      (ms : List Member) (id : ℕ) (t : Timer)
      → all_timers (ms ++ (id, t ∷ []) ∷ []) ≡ all_timers ms ++ t ∷ []
  unfolding all_timers
  all_timers-new ms id t = all_timers-append ms ((id, t ∷ []) ∷ [])

  -- The first timer of a request in the group.
  first_timer :
      (ms : List Member) (o : Option TagRow) (id : ℕ) (labels : List CString) (t : Timer)
      → TagRowOk fl cfg ms o
      → All (λ (m : Member). m.0 ≢ id) ms
      → id < 2 ^ 64 - 1
      → length ms + 1 < 2 ^ 64
      → IsTimerNormal t
      → IsTagRow fl cfg (ms ++ (id, t ∷ []) ∷ []) (add_timer fl cfg id labels t o)
  unfolding add_timer
  first_timer [] none id labels t v u b c n =
      rw
        (counted_before id (add_usage fl cfg t (new_tag_row fl cfg id labels t))
          (unfold add_usage new_tag_row in refl))
        (record {
          counted = unfold add_usage new_tag_row in refl;
          sums = unfold all_timers in new-Sums fl cfg id labels t n;
          last_added = unfold add_usage new_tag_row in refl;
          first_kept = unfold add_usage new_tag_row in omega arith;
        })
  first_timer (m ∷ ms) none id labels t v u b c n = absurd (omega (arith, ap length v))
  first_timer ms (some d) id labels t v u b c n =
      let kept : d.prev_add_request_id ≢ id =
        λ e. last_id-Unused d.prev_add_request_id id ms v.0 u (sym v.1.last_added ∙ e) in
      rw
        (not_counted id (add_usage fl cfg t (add_value fl cfg t d))
          (unfold add_usage add_value in kept))
        (record {
          counted =
              unfold add_usage add_value in
              omega (arith, v.1.counted, length-append ms ((id, t ∷ []) ∷ []));
          sums = rw (all_timers-new ms id t) (
              recount-Sums fl cfg (all_timers ms ++ t ∷ [])
                (add_usage fl cfg t (add_value fl cfg t d)) _ _ _
                (add-Sums fl cfg (all_timers ms) d t v.1.sums n));
          last_added = sym (last_id-snoc id ms (id, t ∷ []));
          first_kept =
              unfold add_usage add_value in
              FirstIsNot-append d.prev_del_request_id ms ((id, t ∷ []) ∷ []) v.0 v.1.first_kept;
        })

  -- A further one.
  next_timer :
      (ms : List Member) (d : TagRow) (id : ℕ) (us : List Timer) (labels : List CString) (t : Timer)
      → IsTagRow fl cfg (ms ++ (id, us) ∷ []) d
      → IsTimerNormal t
      → IsTagRow fl cfg (ms ++ (id, us ++ t ∷ []) ∷ []) (add_timer fl cfg id labels t (some d))
  unfolding add_timer
  next_timer ms d id us labels t v n =
      let last : id ≡ d.prev_add_request_id =
        sym (v.last_added ∙ last_id-snoc d.prev_add_request_id ms (id, us)) in
      rw
        (counted_before id (add_usage fl cfg t (add_value fl cfg t d))
          (unfold add_usage add_value in last))
        (record {
          counted =
              unfold add_usage add_value in
              omega (
                arith,
                v.counted,
                length-append ms ((id, us) ∷ []),
                length-append ms ((id, us ++ t ∷ []) ∷ []),
              );
          sums =
              rw (all_timers-last ms id us t)
                (add-Sums fl cfg (all_timers (ms ++ (id, us) ∷ [])) d t v.sums n);
          last_added =
              unfold add_usage add_value in
              (sym last ∙ sym (last_id-snoc d.prev_add_request_id ms (id, us ++ t ∷ [])));
          first_kept =
              unfold add_usage add_value in
              FirstIsNot-last d.prev_del_request_id id ms us (us ++ t ∷ []) v.first_kept;
        })

  further_timers :
      (ts : List Timer) (ms : List Member) (d : TagRow) (id : ℕ) (us : List Timer)
      (labels : Timer → List CString)
      → IsTagRow fl cfg (ms ++ (id, us) ∷ []) d
      → All IsTimerNormal ts
      → TagRowOk fl cfg (ms ++ (id, us ++ ts) ∷ []) (add_all id labels ts (some d))
  unfolding add_all
  further_timers [] ms d id us labels v n =
      rw (append-nil us) (omega (arith, length-append ms ((id, us) ∷ [])), v)
  further_timers (t ∷ ts) ms d id us labels v n = rw (← append_assoc us (t ∷ []) ts) (
      further_timers ts ms _ id (us ++ t ∷ []) labels (next_timer ms d id us (labels t) t v n.0)
        n.1)

  -- A request whose id is new adds its timers of the group to the row.
  pub add_all-TagRowOk :
      (ms : List Member) (o : Option TagRow) (id : ℕ) (labels : Timer → List CString)
      (ts : List Timer)
      → TagRowOk fl cfg ms o
      → All (λ (m : Member). m.0 ≢ id) ms
      → id < 2 ^ 64 - 1
      → length ms + 1 < 2 ^ 64
      → All IsTimerNormal ts
      → TagRowOk fl cfg (ms ++ cons_member id ts []) (add_all id labels ts o)
  unfolding add_all
  add_all-TagRowOk ms o id labels [] v u b c n = rw (append-nil ms) v
  add_all-TagRowOk ms o id labels (t ∷ ts) v u b c n =
      further_timers ts ms _ id (t ∷ []) labels (first_timer ms o id (labels t) t v u b c n.0) n.1
