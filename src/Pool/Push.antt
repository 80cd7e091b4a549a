-- ===== src/Pool/Push.antt =====
-- `pinba_pool_push` of src/pool.cc on a pool that is used as a stack, as the collector threads use
-- theirs.
use pinba_engine.Common.{
  Bool, Bool-cases, List, [], add64, ap, arith, if◌then◌else◌, inl, inr, length, length-set, le→leb,
  min, nat_eq, refl, set, string_eq, sub64, suc, sym, take, true, zero, ℕ, ◌++◌, ◌+◌, ◌<◌, ◌==◌,
  ◌^◌, ◌∙◌, ◌∷◌, ◌≡◌,
}
use pinba_engine.Pool.{
  IsPool, Pool, Staging, Status, contents, failure, grow, new_size, push, relocate, store, success,
}
use pinba_engine.Pool.Grow.{
  grown, refused, Grown, grow-Grown, relocate-IsPool, relocate-contents, relocate_indices,
}

module _ {A : Type 0} where
  -- A stack's items start at slot 0.
  pub record IsStack (p : Pool A) : Type 0 where
    pub is_pool : IsPool p
    pub at_front : p.out_index ≡ 0

  -- The growth that a full pool asks for is possible.
  pub record CanGrow (p : Pool A) (grow_size : ℕ) : Type 0 where
    pub wanted : 0 < (if grow_size == 0 then p.grow_size else grow_size)
    pub no_wrap : p.size + (if grow_size == 0 then p.grow_size else grow_size) < 2 ^ 64
    pub room : 0 < p.limit_size → p.size < p.limit_size

  -- A write just after the items appends.
  take-set-append :
      (n : ℕ) (xs : List A) (v : A)
      → n < length xs
      → take (n + 1) (set xs n v) ≡ take n xs ++ v ∷ []
  take-set-append n [] v h = absurd (omega arith)
  take-set-append zero (x ∷ xs) v h = refl
  take-set-append (suc n) (x ∷ xs) v h =
      ap (λ k. take k (x ∷ set xs n v)) {x = suc n + 1} {y = suc (n + 1)} (omega arith)
      ∙ ap (λ l. x ∷ l) (take-set-append n xs v (omega arith))

  -- The write of `pinba_pool_push`.
  abbrev put : Pool A → A → Pool A
  put p item = record p { items = set p.items p.in_index item; in_index = add64 p.in_index 1 }

  contents-stack : (p : Pool A) → IsStack p → contents p ≡ take p.in_index p.items
  unfolding contents
  contents-stack p v =
      rw (v.at_front, le→leb 0 p.in_index (omega arith)) (ap (λ n. take n p.items) (omega arith))

  -- The item is on top of the others, in a pool that is a stack again.
  pub record Pushed (p : Pool A) (item : A) (p' : Pool A) : Type 0 where
    pub stack : IsStack p'
    pub appended : contents p' ≡ contents p ++ item ∷ []
    pub counted : p'.in_index ≡ p.in_index + 1

  store-IsStack : (p : Pool A) (item : A) → IsStack p → p.in_index < p.size → IsStack (put p item)
  store-IsStack p item v room = record {
    is_pool = record {
      items_fit = length-set p.items p.in_index item ∙ v.is_pool.items_fit;
      in_fits = ground (arith, v.is_pool.size_fits);
      out_fits = v.is_pool.out_fits;
      size_fits = v.is_pool.size_fits;
    };
    at_front = v.at_front;
  }

  store-Pushed :
      (p : Pool A) (item : A) → IsStack p → p.in_index < p.size → Pushed p item (put p item)
  store-Pushed p item v room =
      let next : add64 p.in_index 1 ≡ p.in_index + 1 = ground (arith, v.is_pool.size_fits) in
      record {
        stack = store-IsStack p item v room;
        appended =
            contents-stack (put p item) (store-IsStack p item v room)
            ∙ ap (λ n. take n (set p.items p.in_index item)) next
            ∙ take-set-append p.in_index p.items item (omega (arith, v.is_pool.items_fit))
            ∙ ap (λ l. l ++ item ∷ []) (sym (contents-stack p v));
        counted = next;
      }

  -- The two outcomes of `pinba_pool_push`.
  pub data PushResult (p : Pool A) (item : A) (s : Staging)
      : Status × Pool A × Staging → Type 0 where
    stored : (p' : Pool A) (s' : Staging) → Pushed p item p' → PushResult p item s (success, p', s')
    full : p.in_index ≡ p.size → PushResult p item s (failure, p, s)

module _ {A : Type 0} (garbage zero_item : A) where
  -- With memory, and where a growth is asked for that does not wrap and has room below the limit,
  -- `pinba_pool_grow` succeeds, and the array is larger: it has grown by what was asked for, or by
  -- the pool's own step when that is 0, and no further than the limit unless that is 0.
  pub grow_succeeds :
      (p : Pool A) (grow_size : ℕ) (s : Staging)
      → IsPool p
      → CanGrow p grow_size
      → let r = grow garbage zero_item true p grow_size s in
        (r.0 ≡ success)
        × (p.size < r.1.size)
        × (r.1.size ≡ (
            let wanted = p.size + (if grow_size == 0 then p.grow_size else grow_size) in
            if p.limit_size == 0 then wanted else min wanted p.limit_size))
  unfolding grow new_size
  grow_succeeds p n s v can =
      let size = new_size p n in
      let bigger : p.size < size = ground (arith, can.wanted, can.no_wrap, can.room) in
      let bounded : size < 2 ^ 64 = ground (arith, can.no_wrap, can.room) in
      let at =
        relocate_indices garbage zero_item p (sub64 size p.size) v (ground (arith, v.size_fits)) in
      ground (arith, at.0, v.size_fits)

  relocate-Pushed :
      (p : Pool A) (item : A) (more : ℕ)
      → IsStack p
      → p.in_index ≡ p.size
      → 0 < more
      → p.size + more < 2 ^ 64
      → Pushed p item (put (relocate garbage zero_item p more) item)
  relocate-Pushed p item more v at_end h b =
      let at = relocate_indices garbage zero_item p more v.is_pool b in
      let grown_stack : IsStack (relocate garbage zero_item p more) = record {
        is_pool = relocate-IsPool garbage zero_item p more v.is_pool b;
        at_front = ground (arith, at.2, v.at_front);
      } in
      let pushed =
        store-Pushed (relocate garbage zero_item p more) item grown_stack
          (omega (arith, at.0, at.1)) in
      record {
        stack = pushed.stack;
        appended =
            pushed.appended
            ∙ ap (λ l. l ++ item ∷ []) (relocate-contents garbage zero_item p more v.is_pool b);
        counted = pushed.counted ∙ omega (arith, at.1);
      }

  -- `pinba_pool_push` on a stack with a 64-bit limit either puts the item on top of all that it
  -- held, in a stack again that has grown if it had to, or fails on a full array and changes
  -- nothing.
  pub push-PushResult :
      (realloc_ok : Bool) (p : Pool A) (grow_size : ℕ) (item : A) (s : Staging)
      → IsStack p
      → p.limit_size < 2 ^ 64
      → PushResult p item s (push garbage zero_item realloc_ok p grow_size item s)
  unfolding push store
  push-PushResult realloc_ok p n item s v l = elim (Bool-cases (p.in_index == p.size)) [
    | inl at_end ↦ rw at_end (
        go (grow garbage zero_item realloc_ok p n s)
          (grow-Grown garbage zero_item realloc_ok p n s v.is_pool l) (ground arith))
    | inr room ↦
        rw room (stored (put p item) s (store-Pushed p item v (ground (arith, v.is_pool.in_fits))))
  ]
    where
      go :
          (r : Status × Pool A × Staging)
          → Grown garbage zero_item p s r
          → p.in_index ≡ p.size
          → PushResult p item s (store garbage zero_item item r)
      go _ refused at_end = full at_end
      go _ (grown more h b lim) at_end = stored _ _ (relocate-Pushed p item more v at_end h b)

  -- `pinba_pool_push` on a stack succeeds if there is a free slot, or else memory and room for the
  -- growth.
  pub push_succeeds :
      (realloc_ok : Bool) (p : Pool A) (grow_size : ℕ) (item : A) (s : Staging)
      → IsStack p
      → (p.in_index ≡ p.size → (realloc_ok ≡ true) × CanGrow p grow_size)
      → (push garbage zero_item realloc_ok p grow_size item s).0 ≡ success
  unfolding push store
  push_succeeds realloc_ok p n item s v can = elim (Bool-cases (p.in_index == p.size)) [
    | inl at_end ↦
        let c = can (ground arith) in
        rw (at_end, c.0)
          (go (grow garbage zero_item true p n s) (grow_succeeds p n s v.is_pool c.1).0)
    | inr room ↦ rw room refl
  ]
    where
      go :
          (r : Status × Pool A × Staging)
          → r.0 ≡ success
          → (store garbage zero_item item r).0 ≡ success
      go (success, p', s') e = refl
      go (failure, p', s') e = e
