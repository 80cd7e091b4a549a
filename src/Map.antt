-- ===== src/Map.antt =====
-- src/pinba_map.cc: maps from C strings, behind a pointer that may be null. The keys' copies are
-- not modelled, but for `strdup` failing; `new` in `pinba_map_add` succeeds, as it assumes.
use pinba_engine.Common.{
  Bool, CString, Distinct, List, Option, [], arith, assign, assign-Distinct, eqb_ℤ, erase,
  erase-Distinct, false, find, find-assign, find-erase, fresh, if◌then◌else◌, inl, inr, length,
  length-assign, length-erase, nat_eq, negsuc, none, not, pos, refl, some, str_eq, string_eq, true,
  ℕ, ℤ, ◌+◌, ◌==◌, ◌∷◌, ◌≡◌, ◌⊎◌,
}

-- `void *map_report`: `none` is the null pointer.
abbrev pub Map : Type 0 → Type 0
Map V = Option (List (CString × V))

module _ {V : Type 0} where
  unfoldable pub map_create : Map V
  map_create = some []

  unfoldable pub map_get : Map V → CString → Option V
  map_get none index = none
  map_get (some m) index = find index m

  -- A new key is copied: -1, and nothing is stored, if `strdup` fails.
  unfoldable pub data_add : Bool → List (CString × V) → CString → V → ℤ × List (CString × V)
  data_add strdup_ok m index v = elim (find index m) [
    | some old ↦ (pos 0, assign index v m)
    | none ↦ if strdup_ok then (pos 0, assign index v m) else (negsuc 0, m)
  ]

  unfoldable pub map_add : Bool → Map V → CString → V → Map V
  unfolding data_add
  map_add strdup_ok none index v = some (data_add strdup_ok [] index v).1
  map_add strdup_ok (some m) index v = some (data_add strdup_ok m index v).1

  -- `make_unique` fails if not `new_ok`; the storage then stays null.
  unfoldable pub map_try_add : Bool → Bool → Map V → CString → V → Bool × Map V
  unfolding data_add
  map_try_add new_ok strdup_ok (some m) index v =
      let (status, m') = data_add strdup_ok m index v in (eqb_ℤ status (pos 0), some m')
  map_try_add new_ok strdup_ok none index v =
      let (status, m') = data_add strdup_ok [] index v in
      if not new_ok
      then (false, none)
      else if eqb_ℤ status (pos 0)
      then (true, some m')
      else (false, none)

  -- -1 for a null map, and for one that is empty afterwards.
  unfoldable pub map_delete : Map V → CString → ℤ × Map V
  map_delete none index = (negsuc 0, none)
  map_delete (some m) index =
      let m' = erase index m in ((if length m' == 0 then negsuc 0 else pos 0), some m')

  unfoldable pub map_count : Map V → ℕ
  map_count none = 0
  map_count (some m) = length m

  -- The predicate may act on a state when it is asked.
  unfoldable pub delete_if :
      {S : Type 0} → (V → S → Bool × S) → List (CString × V) → S → ℕ × List (CString × V) × S
  delete_if predicate [] s = (0, [], s)
  delete_if predicate ((k, v) ∷ m) s =
      let (remove, s1) = predicate v s in
      let (removed, m', s2) = delete_if predicate m s1 in
      if remove then (removed + 1, m', s2) else (removed, (k, v) ∷ m', s2)

  unfoldable pub map_delete_if : {S : Type 0} → (V → S → Bool × S) → Map V → S → ℕ × Map V × S
  unfolding delete_if
  map_delete_if predicate none s = (0, none, s)
  map_delete_if predicate (some m) s =
      let (removed, m', s') = delete_if predicate m s in (removed, some m', s')

  abbrev pub IsMap : Map V → Type 0
  IsMap none = Unit
  IsMap (some m) = Distinct m

  -- A value that was added is found under its key, and every other key finds what it found before.
  pub map_get-add :
      (m : Map V) (k j : CString) (v : V)
      → map_get (map_add true m k v) j ≡ (if str_eq k j then some v else map_get m j)
  unfolding map_get map_add find
  map_get-add none k j v = find-assign k j v []
  map_get-add (some m) k j v = ground (arith, find-assign k j v m)

  -- In a map with distinct keys, a deleted key is not found, and every other key finds what it
  -- found before.
  pub map_get-delete :
      (m : Map V) (k j : CString)
      → IsMap m
      → map_get (map_delete m k).1 j ≡ (if str_eq k j then none else map_get m j)
  unfolding map_get map_delete
  map_get-delete none k j d = ground arith
  map_get-delete (some m) k j d = find-erase k j m d

  pub map_add-IsMap : (m : Map V) (k : CString) (v : V) → IsMap m → IsMap (map_add true m k v)
  unfolding map_add find
  map_add-IsMap none k v d = assign-Distinct k v [] tt
  map_add-IsMap (some m) k v d = ground (arith, assign-Distinct k v m d)

  pub map_delete-IsMap : (m : Map V) (k : CString) → IsMap m → IsMap (map_delete m k).1
  unfolding map_delete
  map_delete-IsMap none k d = d
  map_delete-IsMap (some m) k d = erase-Distinct k m d

  pub map_count-add :
      (m : Map V) (k : CString) (v : V)
      → map_count (map_add true m k v) ≡ map_count m + fresh (map_get m k)
  unfolding map_count map_add map_get find
  map_count-add none k v = length-assign k v []
  map_count-add (some m) k v = ground (arith, length-assign k v m)

  pub map_count-delete :
      (m : Map V) (k : CString) {v : V}
      → map_get m k ≡ some v
      → map_count (map_delete m k).1 + 1 ≡ map_count m
  unfolding map_count map_delete map_get
  map_count-delete none k h = cc
  map_count-delete (some m) k h = ground (arith, length-erase k m)

  -- A failed addition leaves the map as it was.
  pub map_try_add-cases :
      (new_ok strdup_ok : Bool) (m : Map V) (k : CString) (v : V)
      → map_get m k ≡ none
      → (map_try_add new_ok strdup_ok m k v ≡ (false, m))
        ⊎ (map_try_add new_ok strdup_ok m k v ≡ (true, map_add true m k v))
  unfolding map_try_add data_add map_add map_get find
  map_try_add-cases false false none k v e = inl refl
  map_try_add-cases false true none k v e = inl refl
  map_try_add-cases true false none k v e = inl refl
  map_try_add-cases true true none k v e = inr refl
  map_try_add-cases new_ok false (some m) k v e =
      let absent : find k m ≡ none = e in inl (rw (data_add, absent) refl)
  map_try_add-cases new_ok true (some m) k v e =
      let absent : find k m ≡ none = e in inr (rw (data_add, absent) refl)
