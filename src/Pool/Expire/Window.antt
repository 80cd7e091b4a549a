-- ===== src/Pool/Expire/Window.antt =====
-- What `pinba_request_pool_delete_old` of src/pool.cc takes out of the request pool.
use pinba_engine.Common.{
  Bool, Bool-cases, List, [], add64, ap, arith, drop, false, get_elem?, if◌then◌else◌, inl, inr,
  length, length-append, length-take, ltb_ℤ, nat_eq, refl, some, string_eq, suc, sym, true, zero, ℕ,
  ◌%◌, ◌+◌, ◌-◌, ◌==◌, ◌^◌, ◌∙◌, ◌∷◌, ◌≡◌, ◌≢◌, ◌≤◌,
}
use pinba_engine.Time.{Timeval, timercmp}
use pinba_engine.Floats.{Floats}
use pinba_engine.Record.{StatsRecord}
use pinba_engine.Pool.{Pool, contents, next_id, segment}
use pinba_engine.Pool.Expire.{Expired, delete_old_loop, request_pool_delete_old, retire}
use pinba_engine.Pool.Expire.Rings.{
  IsRing, advance, advance-IsRing, contents-advance, contents-empty, get_elem?-some,
}

module _ {A : Type 0} where
  -- A list, split where a test first fails.
  unfoldable pub take_while : (A → Bool) → List A → List A
  take_while f [] = []
  take_while f (x ∷ xs) = if f x then x ∷ take_while f xs else []

  unfoldable pub drop_while : (A → Bool) → List A → List A
  drop_while f [] = []
  drop_while f (x ∷ xs) = if f x then drop_while f xs else x ∷ xs

  unfoldable pub sum_of : (A → ℕ) → List A → ℕ
  sum_of f [] = 0
  sum_of f (x ∷ xs) = f x + sum_of f xs

add64_assoc : (a b c : ℕ) → (add64 a b + c) % 2 ^ 64 ≡ (a + (b + c)) % 2 ^ 64
add64_assoc a b c = ground arith

module _ {fl : Floats} (from : Timeval) where
  abbrev pub is_old : StatsRecord fl → Bool
  is_old r = timercmp ltb_ℤ r.time from

  -- The old records are gone from the front, the others stay in their order, and the two counters
  -- have grown by the numbers of timers and tags of those that went.
  pub record Purged (before after : Expired fl) : Type 0 where
    pub ring : IsRing after.pool
    pub kept : contents after.pool ≡ drop_while is_old (contents before.pool)
    pub timers :
        after.deleted_timer_cnt % 2 ^ 64
        ≡ (before.deleted_timer_cnt
            + sum_of (λ r. r.timers_cnt) (take_while is_old (contents before.pool)))
          % 2 ^ 64
    pub tags :
        after.rtags_cnt % 2 ^ 64
        ≡ (before.rtags_cnt
            + sum_of (λ r. length r.tags) (take_while is_old (contents before.pool)))
          % 2 ^ 64

  nothing_old :
      (e : Expired fl)
      → IsRing e.pool
      → drop_while is_old (contents e.pool) ≡ contents e.pool
      → take_while is_old (contents e.pool) ≡ []
      → Purged e e
  unfolding sum_of
  nothing_old e ring d t = record {
    ring = ring;
    kept = sym d;
    timers = rw t (ground arith);
    tags = rw t (ground arith);
  }

  retire-advance :
      (r : StatsRecord fl) (e : Expired fl)
      → IsRing e.pool
      → (retire r e.pool.out_index e).pool ≡ advance e.pool (record r { active = false })
  unfolding retire next_id
  retire-advance r e ring = ground (arith, ring.out_below, ring.is_pool.size_fits)

  retired :
      (r : StatsRecord fl) (e after : Expired fl)
      → IsRing e.pool
      → contents e.pool ≡ r ∷ contents (retire r e.pool.out_index e).pool
      → is_old r ≡ true
      → Purged (retire r e.pool.out_index e) after
      → Purged e after
  unfolding take_while drop_while sum_of retire
  retired r e after ring step old h = record {
    ring = h.ring;
    kept = rw (step, old) h.kept;
    timers = rw (step, old) (h.timers ∙ add64_assoc e.deleted_timer_cnt r.timers_cnt _);
    tags = rw (step, old) (h.tags ∙ add64_assoc e.rtags_cnt (length r.tags) _);
  }

  next_out :
      (r : StatsRecord fl) (e : Expired fl)
      → IsRing e.pool
      → next_id e.pool.size e.pool.out_index ≡ (retire r e.pool.out_index e).pool.out_index
  next_out r e ring =
      sym (ap (λ (p : Pool (StatsRecord fl)). p.out_index) (retire-advance r e ring))

  -- The state after one step.
  loop_step :
      (e : Expired fl) (r : StatsRecord fl)
      → IsRing e.pool
      → get_elem? e.pool.items e.pool.out_index ≡ some r
      → e.pool.out_index ≢ e.pool.in_index
      → IsRing (retire r e.pool.out_index e).pool
        × (contents e.pool ≡ r ∷ contents (retire r e.pool.out_index e).pool)
  loop_step e r ring here ne =
      let gone = record r { active = false } in
      rw (retire-advance r e ring)
        (advance-IsRing e.pool ring r gone here, contents-advance e.pool ring r gone here ne)

  nothing_left : (e : Expired fl) → IsRing e.pool → contents e.pool ≡ [] → Purged e e
  unfolding take_while drop_while
  nothing_left e ring none_there = nothing_old e ring (rw none_there refl) (rw none_there refl)

  stop_at :
      (e : Expired fl) (r : StatsRecord fl) (rest : List (StatsRecord fl))
      → IsRing e.pool
      → contents e.pool ≡ r ∷ rest
      → is_old r ≡ false
      → Purged e e
  unfolding take_while drop_while
  stop_at e r rest ring step young =
      nothing_old e ring (rw (step, young) refl) (rw (step, young) refl)

  delete_old_loop-Purged :
      (fuel : ℕ) (e : Expired fl)
      → IsRing e.pool
      → length (contents e.pool) ≤ fuel
      → Purged e (delete_old_loop fuel from e.pool.out_index e)
  unfolding delete_old_loop
  delete_old_loop-Purged zero e ring b = nothing_left e ring (no_items (contents e.pool) b)
    where
      no_items : (xs : List (StatsRecord fl)) → length xs ≤ 0 → xs ≡ []
      no_items [] h = refl
      no_items (x ∷ xs) h = absurd (omega arith)
  delete_old_loop-Purged (suc fuel) e ring b =
      elim (Bool-cases (e.pool.out_index == e.pool.in_index)) [
        | inl same ↦ rw same (nothing_left e ring (contents-empty e.pool (ground arith)))
        | inr ne ↦
            let (r, here) =
              get_elem?-some e.pool.out_index e.pool.items
                (omega (arith, ring.out_below, ring.is_pool.items_fit)) in
            let (ring', step) = loop_step e r ring here (λ same. ground arith) in
            elim (Bool-cases (is_old r)) [
              | inl old ↦
                  rw (ne, here, old, next_out r e ring)
                    (retired r e _ ring step old (
                      delete_old_loop-Purged fuel (retire r e.pool.out_index e) ring'
                        (omega (arith, ap length step))))
              | inr young ↦ rw (ne, here, young) (stop_at e r _ ring step young)
            ]
      ]

  length-contents-le : (p : Pool (StatsRecord fl)) → IsRing p → length (contents p) ≤ p.size
  unfolding contents
  length-contents-le p ring = ground (
    arith,
    ring.in_below,
    ring.out_below,
    ring.is_pool.items_fit,
    length-take (p.in_index - p.out_index) (drop p.out_index p.items),
    length-append (segment p.items p.out_index (p.size - p.out_index))
        (segment p.items 0 p.in_index),
    length-take (p.size - p.out_index) (drop p.out_index p.items),
    length-take p.in_index p.items,
  )

  -- On a ring with valid indices, `pinba_request_pool_delete_old` takes exactly the leading
  -- records that are older than `from` out: the first that is not stays, with all that follow, in
  -- their order. The two counters come back as the numbers of timers and of tags of the records
  -- that went, modulo 2^64, and the indices of the ring are valid again.
  pub request_pool_delete_old-Purged :
      (p : Pool (StatsRecord fl))
      → IsRing p
      → let e = request_pool_delete_old from p in
        IsRing e.pool
        × (contents e.pool ≡ drop_while is_old (contents p))
        × (e.deleted_timer_cnt % 2 ^ 64
            ≡ sum_of (λ r. r.timers_cnt) (take_while is_old (contents p)) % 2 ^ 64)
        × (e.rtags_cnt % 2 ^ 64
            ≡ sum_of (λ r. length r.tags) (take_while is_old (contents p)) % 2 ^ 64)
  unfolding request_pool_delete_old
  request_pool_delete_old-Purged p ring =
      let start : Expired fl = record { pool = p; deleted_timer_cnt = 0; rtags_cnt = 0 } in
      let h = delete_old_loop-Purged p.size start ring (length-contents-le p ring) in
      (h.ring, h.kept, h.timers ∙ omega arith, h.tags ∙ omega arith)
