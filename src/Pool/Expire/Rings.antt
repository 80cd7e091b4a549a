-- ===== src/Pool/Expire/Rings.antt =====
-- One step along a ring of src/pool.cc, and its contents.
use pinba_engine.Common.{
  Bool-cases, List, [], ap, arith, drop, get_elem?, inl, inr, length, length-set, le→leb, ltb,
  nat_eq, not-leb, refl, set, some, string_eq, suc, sym, take, zero, ℕ, ◌++◌, ◌+◌, ◌-◌, ◌<◌, ◌==◌,
  ◌^◌, ◌∙◌, ◌∷◌, ◌≡◌, ◌≢◌, ◌≤◌,
}
use pinba_engine.Pool.{IsPool, Pool, contents, next_id, segment}

next_id_inner : (size i : ℕ) → i + 1 < size → size < 2 ^ 64 → next_id size i ≡ i + 1
unfolding next_id
next_id_inner size i h b = ground arith

next_id_last : (size i : ℕ) → i + 1 ≡ size → size < 2 ^ 64 → next_id size i ≡ 0
unfolding next_id
next_id_last size i h b = ground arith

module _ {A : Type 0} where
  pub drop-get_elem? :
      (n : ℕ) (xs : List A) (x : A) → get_elem? xs n ≡ some x → drop n xs ≡ x ∷ drop (suc n) xs
  drop-get_elem? n [] x e = absurd (ground arith)
  drop-get_elem? zero (y ∷ xs) x e = ground arith
  drop-get_elem? (suc n) (y ∷ xs) x e = drop-get_elem? n xs x e

  pub get_elem?-some : (n : ℕ) (xs : List A) → n < length xs → (x : A) × (get_elem? xs n ≡ some x)
  get_elem?-some n [] h = absurd (omega arith)
  get_elem?-some zero (x ∷ xs) h = (x, refl)
  get_elem?-some (suc n) (x ∷ xs) h = get_elem?-some n xs (omega arith)

  drop-set : (n m : ℕ) (xs : List A) (v : A) → n < m → drop m (set xs n v) ≡ drop m xs
  drop-set n zero xs v h = absurd (omega arith)
  drop-set n (suc m) [] v h = refl
  drop-set zero (suc m) (x ∷ xs) v h = refl
  drop-set (suc n) (suc m) (x ∷ xs) v h = drop-set n m xs v (omega arith)

  take-set : (n m : ℕ) (xs : List A) (v : A) → m ≤ n → take m (set xs n v) ≡ take m xs
  take-set n zero xs v h = refl
  take-set n (suc m) [] v h = refl
  take-set zero (suc m) (x ∷ xs) v h = absurd (omega arith)
  take-set (suc n) (suc m) (x ∷ xs) v h = ap (λ l. x ∷ l) (take-set n m xs v (omega arith))

  -- The indices of a ring in use stay below its size.
  pub record IsRing (p : Pool A) : Type 0 where
    pub is_pool : IsPool p
    pub in_below : p.in_index < p.size
    pub out_below : p.out_index < p.size

  abbrev pub advance : Pool A → A → Pool A
  advance p v = record p {
    items = set p.items p.out_index v;
    out_index = next_id p.size p.out_index;
  }

  take-pos : (n : ℕ) (x : A) (xs : List A) → 0 < n → take n (x ∷ xs) ≡ x ∷ take (n - 1) xs
  take-pos zero x xs h = absurd (omega arith)
  take-pos (suc n) x xs h = ap (λ k. x ∷ take k xs) (omega arith)

  -- A segment gives its first item away.
  segment_step :
      (xs : List A) (at n : ℕ) (r v : A)
      → get_elem? xs at ≡ some r
      → 0 < n
      → segment xs at n ≡ r ∷ segment (set xs at v) (at + 1) (n - 1)
  segment_step xs at n r v e h =
      rw (drop-get_elem? at xs r e, take-pos n r (drop (suc at) xs) h)
        (ap (λ l. r ∷ take (n - 1) l)
          (ap (λ k. drop k xs) {x = suc at} {y = at + 1} (omega arith)
            ∙ sym (drop-set at (at + 1) xs v (omega arith))))

  module _ (p : Pool A) (ring : IsRing p) (r v : A)
      (here : get_elem? p.items p.out_index ≡ some r) where
    plain_step : p.out_index < p.in_index → contents p ≡ r ∷ contents (advance p v)
    unfolding contents
    plain_step h =
        rw
          (
            le→leb p.out_index p.in_index (omega arith),
            next_id_inner p.size p.out_index (omega (arith, ring.in_below)) ring.is_pool.size_fits,
            le→leb (p.out_index + 1) p.in_index (omega arith),
          )
          (segment_step p.items p.out_index (p.in_index - p.out_index) r v here (omega arith)
            ∙ ap (λ n. r ∷ segment (set p.items p.out_index v) (p.out_index + 1) n) (omega arith))

    wrapped_step :
        p.in_index < p.out_index
        → p.out_index + 1 < p.size
        → contents p ≡ r ∷ contents (advance p v)
    unfolding contents
    wrapped_step h k =
        rw
          (
            not-leb p.out_index p.in_index (omega arith),
            next_id_inner p.size p.out_index k ring.is_pool.size_fits,
            not-leb (p.out_index + 1) p.in_index (omega arith),
            segment_step p.items p.out_index (p.size - p.out_index) r v here (omega arith),
            take-set p.out_index p.in_index p.items v (omega arith),
          )
          (ap
            (λ n.
              r
              ∷ (segment (set p.items p.out_index v) (p.out_index + 1) n
                  ++ take p.in_index p.items))
            (omega arith))

    last_step :
        p.in_index < p.out_index
        → p.out_index + 1 ≡ p.size
        → contents p ≡ r ∷ contents (advance p v)
    unfolding contents
    last_step h k =
        rw
          (
            not-leb p.out_index p.in_index (omega arith),
            next_id_last p.size p.out_index k ring.is_pool.size_fits,
            le→leb 0 p.in_index (omega arith),
            segment_step p.items p.out_index (p.size - p.out_index) r v here (omega arith),
          )
          (ap
              (λ n.
                r
                ∷ (segment (set p.items p.out_index v) (p.out_index + 1) n
                    ++ take p.in_index p.items))
              {y = 0} (omega arith)
            ∙ ap (λ ys. r ∷ ys)
                (sym (take-set p.out_index p.in_index p.items v (omega arith))
                  ∙ ap (λ n. take n (set p.items p.out_index v)) (omega arith)))

    -- The oldest item leaves, whatever is left in its slot.
    pub contents-advance : p.out_index ≢ p.in_index → contents p ≡ r ∷ contents (advance p v)
    contents-advance ne = elim (Bool-cases (ltb p.out_index p.in_index)) [
      | inl plain ↦ plain_step (ground arith)
      | inr wraps ↦ elim (Bool-cases (p.out_index + 1 == p.size)) [
        | inl last ↦ last_step (ground arith) (ground arith)
        | inr inner ↦ wrapped_step (ground arith) (ground (arith, ring.out_below))
      ]
    ]

    pub advance-IsRing : IsRing (advance p v)
    unfolding next_id
    advance-IsRing = record {
      is_pool = record {
        items_fit = length-set p.items p.out_index v ∙ ring.is_pool.items_fit;
        in_fits = ring.is_pool.in_fits;
        out_fits = ground (arith, ring.out_below, ring.is_pool.size_fits);
        size_fits = ring.is_pool.size_fits;
      };
      in_below = ring.in_below;
      out_below = ground (arith, ring.out_below, ring.is_pool.size_fits);
    }

  pub contents-empty : (p : Pool A) → p.out_index ≡ p.in_index → contents p ≡ []
  unfolding contents
  contents-empty p e = ground arith
