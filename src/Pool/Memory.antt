-- ===== src/Pool/Memory.antt =====
-- What the moves of `pinba_pool_grow` in src/pool.cc leave in the array.
use pinba_engine.Common.{
  ==_iff, List, [], append-nil, arith, drop, drop-append_le, drop-append_length, length,
  length-append, length-drop, length-replicate, length-take, nat_eq, refl, replicate, string_eq,
  suc, take, take-append_le, take-length, take-take, true, zero, ℕ, ◌++◌, ◌+◌, ◌-◌, ◌==◌, ◌∷◌, ◌≡◌,
  ◌≤◌,
}
use pinba_engine.Pool.{memmove, memset}

module _ {A : Type 0} (xs : List A) (g z : A) (more : ℕ) where
  abbrev fresh_items : List A
  fresh_items = xs ++ replicate more g

  length-fresh_items : length fresh_items ≡ length xs + more
  length-fresh_items = omega (arith, length-append xs (replicate more g), length-replicate more g)

  drop_all : (n : ℕ) (ys : List A) → length ys ≤ n → drop n ys ≡ []
  drop_all zero [] h = refl
  drop_all zero (y ∷ ys) h = absurd (omega arith)
  drop_all (suc n) [] h = refl
  drop_all (suc n) (y ∷ ys) h = drop_all n ys (omega arith)

  -- Where `realloc` put the items from `out` on.
  moved_part :
      (out : ℕ)
      → out ≤ length xs
      → take (length xs - out) (drop out fresh_items)
          ++ drop (out + more + (length xs - out)) fresh_items
        ≡ drop out xs
  moved_part out h =
      rw
        (
          drop-append_le out xs (replicate more g) h,
          take-append_le (length xs - out) (drop out xs) (replicate more g)
              (omega (arith, length-drop out xs)),
          take-length (length xs - out) (drop out xs) (omega (arith, length-drop out xs)),
          drop_all (out + more + (length xs - out)) fresh_items (omega (arith, length-fresh_items)),
        )
        (append-nil (drop out xs))

  length-front : (out : ℕ) → out ≤ length xs → out + more ≡ length (take (out + more) fresh_items)
  length-front out h = omega (arith, length-take (out + more) fresh_items, length-fresh_items)

  front_part :
      (out : ℕ) (rest : List A)
      → out ≤ length xs
      → take out (take (out + more) fresh_items ++ rest) ≡ take out xs
  front_part out rest h =
      rw
        (
          take-append_le out (take (out + more) fresh_items) rest
              (omega (arith, length-front out h)),
          take-take out (out + more) fresh_items (omega arith),
        )
        (take-append_le out xs (replicate more g) h)

  -- The ring wraps: its older part moves to the end, and zeroes fill the gap.
  pub relocate_wrapped :
      (out : ℕ)
      → out ≤ length xs
      → memset out more z (memmove (out + more) out (length xs - out) fresh_items)
        ≡ take out xs ++ (replicate more z ++ drop out xs)
  relocate_wrapped out h =
      rw
        (
          moved_part out h,
          front_part out (drop out xs) h,
          drop-append_length (out + more) (take (out + more) fresh_items) (drop out xs)
              (length-front out h),
        )
        refl

  -- The ring does not wrap: zeroes are appended.
  pub relocate_plain : memset (length xs) more z fresh_items ≡ xs ++ replicate more z
  relocate_plain =
      rw
        (
          take-append_le (length xs) xs (replicate more g) (omega arith),
          take-length (length xs) xs (omega arith),
          drop_all (length xs + more) fresh_items (omega (arith, length-fresh_items)),
          append-nil (replicate more z),
        )
        refl

  -- The three cases, at the size that the pool keeps.
  module _ (size : ℕ) (e : length xs ≡ size) where
    pub wrapped_case :
        (out : ℕ)
        → out ≤ size
        → memset out more z (memmove (out + more) out (size - out) fresh_items)
          ≡ take out xs ++ (replicate more z ++ drop out xs)
    wrapped_case out h = rw (← e) (relocate_wrapped out (omega arith))

    pub plain_case : memset size more z fresh_items ≡ xs ++ replicate more z
    plain_case = rw (← e) relocate_plain

    pub empty_case :
        (size + more == more) ≡ true → memset 0 (size + more) z fresh_items ≡ xs ++ replicate more z
    empty_case first =
        rw
          (
            nil_of_length xs (omega (arith, (==_iff (size + more) more).0 first)),
            (==_iff (size + more) more).0 first,
            drop_all (0 + more) (replicate more g) (omega (arith, length-replicate more g)),
          )
          (append-nil (replicate more z))
      where
        nil_of_length : (ys : List A) → length ys ≡ 0 → ys ≡ []
        nil_of_length [] h = refl
        nil_of_length (y ∷ ys) h = absurd (omega arith)
