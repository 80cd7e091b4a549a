-- ===== src/Pool/Lifetime.antt =====
-- `pinba_pool_init` and `pinba_pool_destroy` of src/pool.cc balance the gauges.
use pinba_engine.Common.{
  Bool, Bool-cases, CString, [], arith, if◌then◌else◌, inl, inr, ltb, nat_eq, refl, string_eq, take,
  ℕ, ◌&&◌, ◌+◌, ◌<◌, ◌==◌, ◌^◌, ◌∙◌, ◌≡◌,
}
use pinba_engine.Pool.{
  IsPool, Pool, Staging, Status, contents, count_staging, destroy, failure, init, is_per_thread,
  relocate, success,
}
use pinba_engine.Pool.Grow.{Grown, grow-Grown, grown, refused, relocate-IsPool, relocate-contents}

module _ {A : Type 0} where
  -- A pool that was just made, or whose making failed.
  pub record Made (s : Staging) (r : Status × Pool A × Staging) : Type 0 where
    pub valid : IsPool r.1
    pub empty : contents r.1 ≡ []
    pub balanced : r.0 ≡ success → destroy r.1 r.2 ≡ s
    pub untouched : r.0 ≡ failure → r.2 ≡ s

module _ {A : Type 0} (garbage zero_item : A) where
  relocate_names :
      (p : Pool A) (more : ℕ)
      → let p' = relocate garbage zero_item p more in
        (p'.name ≡ p.name) × (p'.element_size ≡ p.element_size) × (p'.size ≡ p.size + more)
  unfolding relocate
  relocate_names p more = ground arith

  staging_balance :
      (p : Pool A) (more : ℕ) (s : Staging)
      → p.size ≡ 0
      → s.staging_slots < 2 ^ 64
      → s.staging_bytes < 2 ^ 64
      → destroy (relocate garbage zero_item p more) (count_staging garbage zero_item p more s) ≡ s
  unfolding destroy count_staging
  staging_balance p more s z a b =
      let n = relocate_names p more in
      elim (Bool-cases (is_per_thread p.name)) [
        | inl counted ↦ rw (n.0, counted, n.1, n.2, z) (ground arith)
        | inr other ↦ rw (n.0, other) refl
      ]

  -- The pool before its array is there.
  abbrev blank : ℕ → ℕ → ℕ → ℕ → CString → Pool A
  blank size element_size limit_size grow_size pool_name = record {
    size = 0;
    limit_size = limit_size;
    grow_size = if grow_size == 0 then size else grow_size;
    element_size = element_size;
    in_index = 0;
    out_index = 0;
    name = take 255 pool_name;
    items = [];
  }

  blank-IsPool : (n e l g : ℕ) (name : CString) → IsPool (blank n e l g name)
  blank-IsPool n e l g name = record {
    items_fit = refl;
    in_fits = omega arith;
    out_fits = omega arith;
    size_fits = omega arith;
  }

  blank-empty : (n e l g : ℕ) (name : CString) → contents (blank n e l g name) ≡ []
  unfolding contents
  blank-empty n e l g name = ground arith

  Grown-Made :
      (n e l g : ℕ) (name : CString) (s : Staging) (r : Status × Pool A × Staging)
      → s.staging_slots < 2 ^ 64
      → s.staging_bytes < 2 ^ 64
      → Grown garbage zero_item (blank n e l g name) s r
      → Made s r
  Grown-Made n e l g name s _ a b refused = record {
    valid = blank-IsPool n e l g name;
    empty = blank-empty n e l g name;
    balanced = λ h. absurd (ground arith);
    untouched = λ h. refl;
  }
  Grown-Made n e l g name s _ a b (grown more h fits lim) =
      let p = blank n e l g name in
      let v = blank-IsPool n e l g name in
      record {
        valid = relocate-IsPool garbage zero_item p more v fits;
        empty = relocate-contents garbage zero_item p more v fits ∙ blank-empty n e l g name;
        balanced = λ h. staging_balance p more s refl a b;
        untouched = λ h. absurd (ground arith);
      }

  -- `pinba_pool_init` makes an empty pool with valid indices, whether it succeeds or not. If it
  -- succeeds, `pinba_pool_destroy` gives the gauges of the collector threads' pools back what it
  -- counted; if it fails, it has counted nothing. The gauges and the limit fit 64 bits.
  pub init-Made :
      (realloc_ok : Bool) (size element_size limit_size grow_size : ℕ) (pool_name : CString)
      (s : Staging)
      → limit_size < 2 ^ 64
      → s.staging_slots < 2 ^ 64
      → s.staging_bytes < 2 ^ 64
      → Made s
          (init garbage zero_item realloc_ok size element_size limit_size grow_size pool_name s)
  unfolding init
  init-Made ok n e l g name s fits a b = elim (Bool-cases (ltb 0 l && ltb l n)) [
    | inl above ↦ rw above (Grown-Made n e l g name s _ a b refused)
    | inr within ↦ rw within (
        Grown-Made n e l g name s _ a b (
          grow-Grown garbage zero_item ok (blank n e l g name) n s (blank-IsPool n e l g name)
            fits))
  ]
