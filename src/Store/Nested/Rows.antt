-- ===== src/Store/Nested/Rows.antt =====
-- The rows of a map of maps after a row is stored or removed.
use pinba_engine.Common.{
  Bool-cases, CString, List, Option, [], arith, erase, false, find, if◌then◌else◌, inl, inr, length,
  ltb_ℤ, nat_eq, none, pos, refl, some, str_eq, str_eq_iff, str_eq_refl, string_eq, sym, true, ℤ,
  ◌∙◌, ◌∷◌, ◌≡◌,
}
use pinba_engine.Map.{IsMap, Map, map_add, map_delete, map_get, map_get-add, map_get-delete}
use pinba_engine.Store.Nested.{
  IsNested, Key, inner_of, key_eq, nested_get, nested_put, nested_remove, remove_inner, remove_row,
  row_of,
}

length-zero : {A : Type 0} (xs : List A) → length xs ≡ 0 → xs ≡ []
length-zero [] h = refl
length-zero (x ∷ xs) h = absurd (omega arith)

module _ {V : Type 0} where
  pub row_of-inner_of : (o : Option (Map V)) (k : CString) → map_get (inner_of o) k ≡ row_of o k
  unfolding map_get find
  row_of-inner_of none k = refl
  row_of-inner_of (some inner) k = refl

  row_of-add :
      (o : Option (Map V)) (k j : CString) (v : V)
      → row_of (some (map_add true (inner_of o) k v)) j
        ≡ (if str_eq k j then some v else row_of o j)
  row_of-add o k j v = rw (map_get-add (inner_of o) k j v, row_of-inner_of o j) refl

  pub nested_get-put :
      (m : Map (Map V)) (k j : Key) (v : V)
      → nested_get (nested_put m k v) j ≡ (if key_eq k j then some v else nested_get m j)
  unfolding nested_get nested_put
  nested_get-put m (s, k) (t, j) v =
      let stored = map_add true (inner_of (map_get m s)) k v in
      elim (Bool-cases (str_eq s t)) [
        | inr other ↦ rw (map_get-add m s t stored, other) refl
        | inl same ↦
            rw (map_get-add m s t stored, same, ← (str_eq_iff s t).0 same)
              (row_of-add (map_get m s) k j v)
      ]

  -- The status says when the inner map is empty.
  status_empty :
      (inner : Map V) (k j : CString)
      → ltb_ℤ (map_delete inner k).0 (pos 0) ≡ true
      → map_get (map_delete inner k).1 j ≡ none
  unfolding map_delete map_get find
  status_empty none k j h = refl
  status_empty (some m) k j h = rw (length-zero (erase k m) (ground arith)) refl

  get-remove_inner_self :
      (m : Map (Map V)) (s j : CString) (x : ℤ × Map V)
      → IsMap m
      → (ltb_ℤ x.0 (pos 0) ≡ true → map_get x.1 j ≡ none)
      → row_of (map_get (remove_inner m s x) s) j ≡ map_get x.1 j
  unfolding remove_inner
  get-remove_inner_self m s j (status, inner) d h = elim (Bool-cases (ltb_ℤ status (pos 0))) [
    | inl empty ↦ rw (empty, map_get-delete m s s d, str_eq_refl s) (sym (h empty))
    | inr left_over ↦ rw (left_over, map_get-add m s s inner, str_eq_refl s) refl
  ]

  get-remove_inner_other :
      (m : Map (Map V)) (s t : CString) (x : ℤ × Map V)
      → IsMap m
      → str_eq s t ≡ false
      → map_get (remove_inner m s x) t ≡ map_get m t
  unfolding remove_inner
  get-remove_inner_other m s t (status, inner) d other = elim (Bool-cases (ltb_ℤ status (pos 0))) [
    | inl empty ↦ rw (empty, map_get-delete m s t d, other) refl
    | inr left_over ↦ rw (left_over, map_get-add m s t inner, other) refl
  ]

  remove_row-at :
      (m : Map (Map V)) (s k j : CString) (o : Option (Map V))
      → IsNested m
      → map_get m s ≡ o
      → row_of (map_get (remove_row m s k o) s) j ≡ (if str_eq k j then none else row_of o j)
  unfolding remove_row
  remove_row-at m s k j none v e = rw e (ground arith)
  remove_row-at m s k j (some inner) v e =
      get-remove_inner_self m s j (map_delete inner k) v.outer (status_empty inner k j)
      ∙ map_get-delete inner k j (v.inners s inner e)

  remove_row-other :
      (m : Map (Map V)) (s k t : CString) (o : Option (Map V))
      → IsNested m
      → str_eq s t ≡ false
      → map_get (remove_row m s k o) t ≡ map_get m t
  unfolding remove_row
  remove_row-other m s k t none v other = refl
  remove_row-other m s k t (some inner) v other =
      get-remove_inner_other m s t (map_delete inner k) v.outer other

  pub nested_get-remove :
      (m : Map (Map V)) (k j : Key)
      → IsNested m
      → nested_get (nested_remove m k) j ≡ (if key_eq k j then none else nested_get m j)
  unfolding nested_get nested_remove
  nested_get-remove m (s, k) (t, j) v = elim (Bool-cases (str_eq s t)) [
    | inl same ↦ rw (same, ← (str_eq_iff s t).0 same) (remove_row-at m s k j (map_get m s) v refl)
    | inr other ↦ rw (remove_row-other m s k t (map_get m s) v other, other) refl
  ]
