-- ===== src/Pool/Grow.antt =====
-- `pinba_pool_grow` of src/pool.cc keeps the items and their order, and the limit.
use pinba_engine.Common.{
  Bool, Bool-cases, List, ap, append_assoc, arith, drop, drop-append_le, drop-append_length, false,
  if◌then◌else◌, inl, inr, leb, length, length-append, length-drop, length-replicate, length-take,
  le→leb, ltb, nat_eq, not-leb, refl, replicate, string_eq, sub64, take, take-append_le, take-take,
  true, ℕ, ◌++◌, ◌+◌, ◌-◌, ◌<◌, ◌==◌, ◌^◌, ◌||◌, ◌∙◌, ◌≡◌, ◌≤◌,
}
use pinba_engine.Pool.{
  IsPool, Pool, Staging, Status, contents, count_staging, failure, grow, new_size, num_records,
  relocate, segment, success,
}
use pinba_engine.Pool.Memory.{empty_case, plain_case, wrapped_case}

module _ {A : Type 0} (garbage zero_item : A) where
  -- The array that `pinba_pool_grow` leaves, whichever case it takes.
  relocate_items :
      (p : Pool A) (more : ℕ)
      → IsPool p
      → (relocate garbage zero_item p more).items ≡ (
          if ltb p.in_index p.out_index
          then take p.out_index p.items ++ (replicate more zero_item ++ drop p.out_index p.items)
          else p.items ++ replicate more zero_item)
  unfolding relocate
  relocate_items p more v = ground (
    arith,
    v.items_fit,
    v.out_fits,
    v.in_fits,
    empty_case p.items garbage zero_item more p.size v.items_fit,
    wrapped_case p.items garbage zero_item more p.size v.items_fit p.out_index,
    plain_case p.items garbage zero_item more p.size v.items_fit,
  )

  pub relocate_indices :
      (p : Pool A) (more : ℕ)
      → IsPool p
      → p.size + more < 2 ^ 64
      → let p' = relocate garbage zero_item p more in
        (p'.size ≡ p.size + more)
        × (p'.in_index ≡ p.in_index)
        × (p'.out_index ≡ (if ltb p.in_index p.out_index then p.out_index + more else p.out_index))
  unfolding relocate
  relocate_indices p more v b = ground (arith, v.out_fits, v.in_fits)

  wrapped_contents :
      (xs : List A) (more in_index out : ℕ)
      → in_index ≤ out
      → out ≤ length xs
      → let ys = take out xs ++ (replicate more zero_item ++ drop out xs) in
        (drop (out + more) ys ≡ drop out xs) × (take in_index ys ≡ take in_index xs)
  wrapped_contents xs more in_index out h k = (
    rw (← append_assoc (take out xs) (replicate more zero_item) (drop out xs)) (
        drop-append_length (out + more) (take out xs ++ replicate more zero_item) (drop out xs) (
          omega (
            arith,
            length-append (take out xs) (replicate more zero_item),
            length-take out xs,
            length-replicate more zero_item,
          ))),
    take-append_le in_index (take out xs) (replicate more zero_item ++ drop out xs)
          (omega (arith, length-take out xs))
        ∙ take-take in_index out xs h,
  )

  plain_contents :
      (xs : List A) (more in_index out : ℕ)
      → out ≤ in_index
      → in_index ≤ length xs
      → segment (xs ++ replicate more zero_item) out (in_index - out)
        ≡ segment xs out (in_index - out)
  plain_contents xs more in_index out h k =
      rw (drop-append_le out xs (replicate more zero_item) (omega arith)) (
        take-append_le (in_index - out) (drop out xs) (replicate more zero_item)
          (omega (arith, length-drop out xs)))

  pub relocate-contents :
      (p : Pool A) (more : ℕ)
      → IsPool p
      → p.size + more < 2 ^ 64
      → contents (relocate garbage zero_item p more) ≡ contents p
  unfolding contents
  relocate-contents p more v b =
      let at = relocate_indices p more v b in
      elim (Bool-cases (ltb p.in_index p.out_index)) [
        | inl wraps ↦
            rw
              (
                at.0,
                at.1,
                at.2,
                relocate_items p more v,
                wraps,
                not-leb (p.out_index + more) p.in_index (ground arith),
                not-leb p.out_index p.in_index (ground arith),
                (wrapped_contents p.items more p.in_index p.out_index (ground arith)
                    (omega (arith, v.items_fit, v.out_fits))).0,
                (wrapped_contents p.items more p.in_index p.out_index (ground arith)
                    (omega (arith, v.items_fit, v.out_fits))).1,
              )
              (ap (λ n. take n (drop p.out_index p.items) ++ take p.in_index p.items)
                (omega (arith, v.out_fits)))
        | inr plain ↦
            rw
              (
                at.0,
                at.1,
                at.2,
                relocate_items p more v,
                plain,
                le→leb p.out_index p.in_index (ground arith),
              )
              (plain_contents p.items more p.in_index p.out_index (ground arith)
                (omega (arith, v.items_fit, v.in_fits)))
      ]

  pub relocate-IsPool :
      (p : Pool A) (more : ℕ)
      → IsPool p
      → p.size + more < 2 ^ 64
      → IsPool (relocate garbage zero_item p more)
  relocate-IsPool p more v b =
      let at = relocate_indices p more v b in
      let kept = take p.out_index p.items in
      let zeroes = replicate more zero_item in
      record {
        items_fit = ground (
          arith,
          at.0,
          relocate_items p more v,
          v.items_fit,
          v.out_fits,
          length-append kept (zeroes ++ drop p.out_index p.items),
          length-append zeroes (drop p.out_index p.items),
          length-append p.items zeroes,
          length-take p.out_index p.items,
          length-drop p.out_index p.items,
          length-replicate more zero_item,
        );
        in_fits = omega (arith, at.0, at.1, v.in_fits);
        out_fits = ground (arith, at.0, at.2, v.out_fits);
        size_fits = omega (arith, at.0);
      }

  num_records-relocate :
      (p : Pool A) (more : ℕ)
      → IsPool p
      → p.size + more < 2 ^ 64
      → num_records (relocate garbage zero_item p more) ≡ num_records p
  unfolding num_records
  num_records-relocate p more v b =
      let at = relocate_indices p more v b in
      ground (arith, at.0, at.1, at.2, v.in_fits, v.out_fits, v.size_fits)

  -- What a call of `pinba_pool_grow` may do.
  pub data Grown (p : Pool A) (s : Staging) : Status × Pool A × Staging → Type 0 where
    refused : Grown p s (failure, p, s)
    grown :
        (more : ℕ)
        → 0 < more
        → p.size + more < 2 ^ 64
        → (0 < p.limit_size → p.size + more ≤ p.limit_size)
        → Grown p s
            (success, relocate garbage zero_item p more, count_staging garbage zero_item p more s)

  grow_accepted :
      (p : Pool A) (more : ℕ) (s : Staging)
      → IsPool p
      → p.limit_size < 2 ^ 64
      → (p.size == new_size p more) ≡ false
      → (leb (new_size p more) 0 || ltb (new_size p more) p.size) ≡ false
      → Grown p s (grow garbage zero_item true p more s)
  unfolding grow new_size
  grow_accepted p more s v l ne ok =
      rw (ne, ok)
        (grown (sub64 (new_size p more) p.size) (ground (arith, v.size_fits))
          (ground (arith, v.size_fits)) (ground (arith, v.size_fits)))

  -- `pinba_pool_grow` either leaves everything as it was, or makes the array larger within the
  -- limit.
  pub grow-Grown :
      (realloc_ok : Bool) (p : Pool A) (more : ℕ) (s : Staging)
      → IsPool p
      → p.limit_size < 2 ^ 64
      → Grown p s (grow garbage zero_item realloc_ok p more s)
  unfolding grow
  grow-Grown realloc_ok p more s v l = elim (Bool-cases (p.size == new_size p more)) [
    | inl same ↦ rw same refused
    | inr ne ↦ elim (Bool-cases (leb (new_size p more) 0 || ltb (new_size p more) p.size)) [
      | inl bad ↦ rw (ne, bad) refused
      | inr ok ↦ elim (Bool-cases realloc_ok) [
        | inl there ↦ rw there (grow_accepted p more s v l ne ok)
        | inr none_left ↦ rw (ne, ok, none_left) refused
      ]
    ]
  ]

  -- Whether `pinba_pool_grow` succeeds or not, a pool with valid indices holds the same items in
  -- the same order afterwards, also when they wrap round its end, its indices are valid, and a
  -- limit that it kept is kept.
  pub grow_keeps :
      (realloc_ok : Bool) (p : Pool A) (more : ℕ) (s : Staging)
      → IsPool p
      → p.limit_size < 2 ^ 64
      → (0 < p.limit_size → p.size ≤ p.limit_size)
      → let p' = (grow garbage zero_item realloc_ok p more s).1 in
        (contents p' ≡ contents p)
        × (num_records p' ≡ num_records p)
        × IsPool p'
        × (0 < p.limit_size → p'.size ≤ p.limit_size)
  grow_keeps realloc_ok p more s v l within =
      go (grow garbage zero_item realloc_ok p more s) (grow-Grown realloc_ok p more s v l)
    where
      go :
          (result : Status × Pool A × Staging)
          → Grown p s result
          → (contents result.1 ≡ contents p)
            × (num_records result.1 ≡ num_records p)
            × IsPool result.1
            × (0 < p.limit_size → result.1.size ≤ p.limit_size)
      go _ refused = (refl, refl, v, within)
      go _ (grown m h b lim) = (
        relocate-contents p m v b,
        num_records-relocate p m v b,
        relocate-IsPool p m v b,
        λ on. omega (arith, (relocate_indices p m v b).0, lim on),
      )
