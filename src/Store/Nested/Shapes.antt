-- ===== src/Store/Nested/Shapes.antt =====
-- A map of maps stays one, whatever is stored or removed.
use pinba_engine.Common.{
  Bool-cases, CString, Option, arith, inl, inr, ltb_ℤ, nat_eq, none, pos, refl, some, str_eq,
  string_eq, subst, sym, true, ℤ, ◌∙◌, ◌≡◌,
}
use pinba_engine.Map.{
  IsMap, Map, map_add, map_add-IsMap, map_delete, map_delete-IsMap, map_get, map_get-add,
  map_get-delete,
}
use pinba_engine.Store.Nested.{
  IsNested, Key, inner_of, nested_put, nested_remove, remove_inner, remove_row,
}

module _ {V : Type 0} where
  inner-IsMap :
      (m : Map (Map V)) (s : CString) (o : Option (Map V))
      → IsNested m
      → map_get m s ≡ o
      → IsMap (inner_of o)
  inner-IsMap m s none v e = tt
  inner-IsMap m s (some inner) v e = v.inners s inner e

  add-IsNested :
      (m : Map (Map V)) (s : CString) (inner : Map V)
      → IsNested m
      → IsMap inner
      → IsNested (map_add true m s inner)
  add-IsNested m s inner v w = record {
    outer = map_add-IsMap m s inner v.outer;
    inners = λ t found e. elim (Bool-cases (str_eq s t)) [
      | inl same ↦
          let stored : some inner ≡ some found = sym (map_get-add m s t inner ∙ rw same refl) ∙ e in
          subst (λ (o : Map V). IsMap o) (cc) w
      | inr other ↦ v.inners t found (sym (map_get-add m s t inner ∙ rw other refl) ∙ e)
    ];
  }

  delete-IsNested : (m : Map (Map V)) (s : CString) → IsNested m → IsNested (map_delete m s).1
  delete-IsNested m s v = record {
    outer = map_delete-IsMap m s v.outer;
    inners = λ t found e. elim (Bool-cases (str_eq s t)) [
      | inl same ↦
          let gone : none ≡ some found = sym (map_get-delete m s t v.outer ∙ rw same refl) ∙ e in
          absurd (ground arith)
      | inr other ↦ v.inners t found (sym (map_get-delete m s t v.outer ∙ rw other refl) ∙ e)
    ];
  }

  pub put-IsNested : (m : Map (Map V)) (k : Key) (v : V) → IsNested m → IsNested (nested_put m k v)
  unfolding nested_put
  put-IsNested m (s, k) v w =
      add-IsNested m s (map_add true (inner_of (map_get m s)) k v) w
        (map_add-IsMap (inner_of (map_get m s)) k v (inner-IsMap m s (map_get m s) w refl))

  remove_inner-IsNested :
      (m : Map (Map V)) (s : CString) (x : ℤ × Map V)
      → IsNested m
      → IsMap x.1
      → IsNested (remove_inner m s x)
  unfolding remove_inner
  remove_inner-IsNested m s (status, inner) v w = elim (Bool-cases (ltb_ℤ status (pos 0))) [
    | inl empty ↦ rw empty (delete-IsNested m s v)
    | inr left_over ↦ rw left_over (add-IsNested m s inner v w)
  ]

  remove_row-IsNested :
      (m : Map (Map V)) (s k : CString) (o : Option (Map V))
      → IsNested m
      → map_get m s ≡ o
      → IsNested (remove_row m s k o)
  unfolding remove_row
  remove_row-IsNested m s k none v e = v
  remove_row-IsNested m s k (some inner) v e =
      remove_inner-IsNested m s (map_delete inner k) v
        (map_delete-IsMap inner k (v.inners s inner e))

  pub remove-IsNested : (m : Map (Map V)) (k : Key) → IsNested m → IsNested (nested_remove m k)
  unfolding nested_remove
  remove-IsNested m (s, k) v = remove_row-IsNested m s k (map_get m s) v refl
