-- ===== src/Common/Assoc.antt =====
-- What src/pinba_map.cc and src/pinba_lmap.cc use of `std::unordered_map`: an association list
-- without a repeated key. The order of its entries is one that the program does not rely on.
use pinba_engine.Common.Tests.{Bool-cases, if◌then◌else◌}
use pinba_engine.Common.Lists.{length}
use pinba_engine.Common.Keys.{Eq}
use Prim.Native.Nat.{ℕ, ◌+◌, ◌≤◌, ◌<◌}
use mathlib.Core.Logic.{inl, inr}
use mathlib.Core.Path.{◌≡◌, refl}
use mathlib.Core.Bool.{true}
use mathlib.Core.List.{List, [], ◌∷◌}
use mathlib.Core.Option.{Option, none, some}
use native.Mathlib.Omega.{arith}

abbrev pub fresh {κ} : {V : Type κ} → Option V → ℕ
fresh none = 1
fresh (some v) = 0

pub beq_refl {ℓ} : {K : Type ℓ} ⦃e : Eq K⦄ (k : K) → e.beq k k ≡ true
beq_refl ⦃e⦄ k = (e.beq_iff k k).1 refl

module _ {ℓ κ} {K : Type ℓ} {V : Type κ} ⦃e : Eq K⦄ where
  -- `find`
  unfoldable pub find : K → List (K × V) → Option V
  find k [] = none
  find k ((j, v) ∷ m) = if e.beq j k then some v else find k m

  -- `hash_map[k] = v`
  unfoldable pub assign : K → V → List (K × V) → List (K × V)
  assign k v [] = (k, v) ∷ []
  assign k v ((j, w) ∷ m) = if e.beq j k then (j, v) ∷ m else (j, w) ∷ assign k v m

  -- `erase(find(k))`
  unfoldable pub erase : K → List (K × V) → List (K × V)
  erase k [] = []
  erase k ((j, w) ∷ m) = if e.beq j k then m else (j, w) ∷ erase k m

  -- No key stands twice.
  abbrev pub Distinct : List (K × V) → Type κ
  Distinct [] = Unit
  Distinct ((k, v) ∷ m) = (find k m ≡ none) × Distinct m

  pub find-assign :
      (k j : K) (v : V) (m : List (K × V))
      → find j (assign k v m) ≡ (if e.beq k j then some v else find j m)
  unfolding find assign
  find-assign k j v [] = refl
  find-assign k j v ((i, w) ∷ m) =
      ground (arith, e.beq_iff k j, e.beq_iff i k, e.beq_iff i j, find-assign k j v m)

  pub find-erase :
      (k j : K) (m : List (K × V))
      → Distinct m
      → find j (erase k m) ≡ (if e.beq k j then none else find j m)
  unfolding find erase
  find-erase k j [] d = ground arith
  find-erase k j ((i, w) ∷ m) d =
      ground
        (arith, e.beq_iff k j, e.beq_iff i k, e.beq_iff i j, e.beq_iff j i, find-erase k j m d.1)

  pub assign-Distinct : (k : K) (v : V) (m : List (K × V)) → Distinct m → Distinct (assign k v m)
  unfolding find assign
  assign-Distinct k v [] d = (refl, d)
  assign-Distinct k v ((i, w) ∷ m) d =
      ground (arith, e.beq_iff i k, e.beq_iff k i, find-assign k i v m, assign-Distinct k v m d.1)

  pub erase-Distinct : (k : K) (m : List (K × V)) → Distinct m → Distinct (erase k m)
  unfolding find erase
  erase-Distinct k [] d = d
  erase-Distinct k ((i, w) ∷ m) d =
      ground (arith, e.beq_iff i k, find-erase k i m d.1, erase-Distinct k m d.1)

  pub length-assign :
      (k : K) (v : V) (m : List (K × V)) → length (assign k v m) ≡ length m + fresh (find k m)
  unfolding find assign
  length-assign k v [] = omega arith
  length-assign k v ((i, w) ∷ m) = ground (arith, length-assign k v m)

  pub length-erase :
      (k : K) (m : List (K × V)) → length (erase k m) + 1 ≡ length m + fresh (find k m)
  unfolding find erase
  length-erase k [] = omega arith
  length-erase k ((i, w) ∷ m) = ground (arith, length-erase k m)

abbrev pub weight_of {κ} : {V : Type κ} → (V → ℕ) → Option V → ℕ
weight_of weight none = 0
weight_of weight (some v) = weight v

-- The sum of a weight over the entries.
module _ {ℓ} {K : Type ℓ} {V : Type 0} ⦃e : Eq K⦄ (weight : V → ℕ) where
  unfoldable pub weigh : List (K × V) → ℕ
  weigh [] = 0
  weigh ((k, v) ∷ m) = weight v + weigh m

  pub weigh-assign :
      (k : K) (v : V) (m : List (K × V))
      → weigh (assign k v m) + weight_of weight (find k m) ≡ weigh m + weight v
  unfolding weigh assign find
  weigh-assign k v [] = omega arith
  weigh-assign k v ((i, w) ∷ m) = ground (arith, weigh-assign k v m)

  pub weigh-erase :
      (k : K) (m : List (K × V)) → weigh (erase k m) + weight_of weight (find k m) ≡ weigh m
  unfolding weigh erase find
  weigh-erase k [] = omega arith
  weigh-erase k ((i, w) ∷ m) = ground (arith, weigh-erase k m)

  tail_found :
      (k j : K) (v d : V) (m : List (K × V))
      → find k m ≡ none
      → find j m ≡ some d
      → find j ((k, v) ∷ m) ≡ some d
  unfolding find
  tail_found k j v d m absent found = elim (Bool-cases (e.beq k j)) [
    | inl same ↦ ground (arith, e.beq_iff k j)
    | inr other ↦ rw other found
  ]

  head_found : (k : K) (v : V) (m : List (K × V)) → find k ((k, v) ∷ m) ≡ some v
  unfolding find
  head_found k v m = rw (beq_refl k)

  -- If every entry weighs something, there are no more entries than they weigh together.
  pub length-le-weigh :
      (m : List (K × V))
      → Distinct m
      → ((j : K) (d : V) → find j m ≡ some d → 0 < weight d)
      → length m ≤ weigh m
  unfolding weigh
  length-le-weigh [] d h = omega arith
  length-le-weigh ((k, v) ∷ m) d h = omega (
    arith,
    h k v (head_found k v m),
    length-le-weigh m d.1 (λ j w f. h j w (tail_found k j v w m d.0 f)),
  )
