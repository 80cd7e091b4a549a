-- ===== src/Lmap.antt =====
-- src/pinba_lmap.cc: maps from 64-bit numbers, behind a pointer that may be null. The heap is
-- not modelled: `new` in `pinba_lmap_add` succeeds, as that function assumes.
use pinba_engine.Common.{
  Distinct, List, Option, [], arith, assign, assign-Distinct, erase, erase-Distinct, find,
  find-assign, find-erase, if◌then◌else◌, length, nat_eq, negsuc, none, pos, some, string_eq, ℕ, ℤ,
  ◌==◌, ◌≡◌,
}

-- `void *map_report`: `none` is the null pointer.
abbrev pub Lmap : Type 0 → Type 0
Lmap V = Option (List (ℕ × V))

module _ {V : Type 0} where
  unfoldable pub lmap_create : Lmap V
  lmap_create = some []

  unfoldable pub lmap_get : Lmap V → ℕ → Option V
  lmap_get none index = none
  lmap_get (some m) index = find index m

  unfoldable pub lmap_add : Lmap V → ℕ → V → Lmap V
  lmap_add none index v = some (assign index v [])
  lmap_add (some m) index v = some (assign index v m)

  -- -1 for a null map, and for one that is empty afterwards.
  unfoldable pub lmap_delete : Lmap V → ℕ → ℤ × Lmap V
  lmap_delete none index = (negsuc 0, none)
  lmap_delete (some m) index =
      let m' = erase index m in ((if length m' == 0 then negsuc 0 else pos 0), some m')

  unfoldable pub lmap_count : Lmap V → ℕ
  lmap_count none = 0
  lmap_count (some m) = length m

  abbrev pub IsLmap : Lmap V → Type 0
  IsLmap none = Unit
  IsLmap (some m) = Distinct m

  -- A value that was added is found, and no other entry changes.
  pub lmap_get-add :
      (m : Lmap V) (k j : ℕ) (v : V)
      → lmap_get (lmap_add m k v) j ≡ (if k == j then some v else lmap_get m j)
  unfolding lmap_get lmap_add find
  lmap_get-add none k j v = find-assign k j v []
  lmap_get-add (some m) k j v = find-assign k j v m

  -- In a map with distinct numbers, a deleted number is not found, and every other one finds what
  -- it found before.
  pub lmap_get-delete :
      (m : Lmap V) (k j : ℕ)
      → IsLmap m
      → lmap_get (lmap_delete m k).1 j ≡ (if k == j then none else lmap_get m j)
  unfolding lmap_get lmap_delete
  lmap_get-delete none k j d = ground arith
  lmap_get-delete (some m) k j d = find-erase k j m d

  pub lmap_add-IsLmap : (m : Lmap V) (k : ℕ) (v : V) → IsLmap m → IsLmap (lmap_add m k v)
  unfolding lmap_add
  lmap_add-IsLmap none k v d = assign-Distinct k v [] tt
  lmap_add-IsLmap (some m) k v d = assign-Distinct k v m d

  pub lmap_delete-IsLmap : (m : Lmap V) (k : ℕ) → IsLmap m → IsLmap (lmap_delete m k).1
  unfolding lmap_delete
  lmap_delete-IsLmap none k d = d
  lmap_delete-IsLmap (some m) k d = erase-Distinct k m d
