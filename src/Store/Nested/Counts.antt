-- ===== src/Store/Nested/Counts.antt =====
-- The number of rows of a map of maps, and its operations as a store of rows.
use pinba_engine.Common.{
  Bool-cases, CString, Option, [], ap, arith, find, fresh, inl, inr, ltb_ℤ, nat_eq, none, pos, refl,
  some, string_eq, true, weigh, weigh-assign, weigh-erase, weight_of, ℤ, ◌+◌, ◌≡◌,
}
use pinba_engine.Map.{Map, map_add, map_count, map_count-add, map_count-delete, map_delete, map_get}
use pinba_engine.Store.{Store}
use pinba_engine.Store.Nested.{
  IsNested, Key, inner_of, nested_count, nested_get, nested_put, nested_remove, pair_eq,
  remove_inner, remove_row, row_of,
}
use pinba_engine.Store.Nested.Rows.{nested_get-put, nested_get-remove, row_of-inner_of}
use pinba_engine.Store.Nested.Shapes.{put-IsNested, remove-IsNested}

module _ {V : Type 0} where
  nested_count-add :
      (m : Map (Map V)) (s : CString) (inner : Map V)
      → nested_count (map_add true m s inner) + weight_of map_count (map_get m s)
        ≡ nested_count m + map_count inner
  unfolding nested_count map_add map_get find weigh
  nested_count-add none s inner =
      omega (arith, weigh-assign {K = CString} {V = Map V} map_count s inner [])
  nested_count-add (some m) s inner = ground (arith, weigh-assign {V = Map V} map_count s inner m)

  nested_count-delete :
      (m : Map (Map V)) (s : CString)
      → nested_count (map_delete m s).1 + weight_of map_count (map_get m s) ≡ nested_count m
  unfolding nested_count map_delete map_get weigh
  nested_count-delete none s = omega arith
  nested_count-delete (some m) s = weigh-erase {V = Map V} map_count s m

  count-inner_of : (o : Option (Map V)) → map_count (inner_of o) ≡ weight_of map_count o
  unfolding map_count
  count-inner_of none = refl
  count-inner_of (some inner) = refl

  pub nested_count-put :
      (m : Map (Map V)) (k : Key) (v : V)
      → IsNested m
      → nested_count (nested_put m k v) ≡ nested_count m + fresh (nested_get m k)
  unfolding nested_put nested_get
  nested_count-put m (s, k) v w = omega (
    arith,
    nested_count-add m s (map_add true (inner_of (map_get m s)) k v),
    map_count-add (inner_of (map_get m s)) k v,
    count-inner_of (map_get m s),
    ap fresh (row_of-inner_of (map_get m s) k),
  )

  status_count :
      (inner : Map V) (k : CString)
      → ltb_ℤ (map_delete inner k).0 (pos 0) ≡ true
      → map_count (map_delete inner k).1 ≡ 0
  unfolding map_delete map_count
  status_count none k h = refl
  status_count (some m) k h = ground arith

  remove_inner-count :
      (m : Map (Map V)) (s : CString) (x : ℤ × Map V)
      → (ltb_ℤ x.0 (pos 0) ≡ true → map_count x.1 ≡ 0)
      → nested_count (remove_inner m s x) + weight_of map_count (map_get m s)
        ≡ nested_count m + map_count x.1
  unfolding remove_inner
  remove_inner-count m s (status, inner) h = elim (Bool-cases (ltb_ℤ status (pos 0))) [
    | inl empty ↦ rw empty (omega (arith, h empty, nested_count-delete m s))
    | inr left_over ↦ rw left_over (nested_count-add m s inner)
  ]

  remove_row-count :
      (m : Map (Map V)) (s k : CString) (o : Option (Map V)) (v : V)
      → map_get m s ≡ o
      → row_of o k ≡ some v
      → nested_count (remove_row m s k o) + 1 ≡ nested_count m
  unfolding remove_row
  remove_row-count m s k none v e h = cc
  remove_row-count m s k (some inner) v e h = omega (
    arith,
    remove_inner-count m s (map_delete inner k) (status_count inner k),
    map_count-delete inner k h,
    ap (weight_of map_count) e,
  )

  pub nested_count-remove :
      (m : Map (Map V)) (k : Key) (v : V)
      → IsNested m
      → nested_get m k ≡ some v
      → nested_count (nested_remove m k) + 1 ≡ nested_count m
  unfolding nested_get nested_remove
  nested_count-remove m (s, k) v w h = remove_row-count m s k (map_get m s) v refl h

unfoldable pub nested_store : (V : Type 0) → Store Key V ⦃e = pair_eq⦄
nested_store V = record {
  Table = Map (Map V);
  IsTable = λ m. IsNested m;
  get = nested_get;
  put = nested_put;
  remove = nested_remove;
  entries = nested_count;
  get-put = nested_get-put;
  get-remove = nested_get-remove;
  put-IsTable = put-IsNested;
  remove-IsTable = remove-IsNested;
  entries-put = nested_count-put;
  entries-remove = nested_count-remove;
}
