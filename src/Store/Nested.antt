-- ===== src/Store/Nested.antt =====
-- A map from a script or host name to a map of rows, which goes when its last row does. An inner
-- map that is changed through its pointer is an entry of the outer one that is stored again.
pub mod Rows
pub mod Shapes
pub mod Counts
use pinba_engine.Common.{
  Bool, CString, Eq, Option, [], arith, if◌then◌else◌, ltb_ℤ, nat_eq, none, pos, some, str_eq,
  str_eq_iff, string_eq, true, weigh, ℕ, ℤ, ◌&&◌, ◌↔◌, ◌≡◌,
}
use pinba_engine.Map.{IsMap, Map, map_add, map_count, map_delete, map_get}
use pinba_engine.Store.{}

abbrev pub Key : Type 0
Key = CString × CString

abbrev pub key_eq : Key → Key → Bool
key_eq (a, b) (c, d) = str_eq a c && str_eq b d

pub key_eq_iff : (a b : Key) → (key_eq a b ≡ true) ↔ (a ≡ b)
key_eq_iff (a, b) (c, d) = (
  λ h. ground (arith, str_eq_iff a c, str_eq_iff b d),
  λ h. ground (arith, str_eq_iff a c, str_eq_iff b d),
)

instance abbrev pub pair_eq : Eq Key
pair_eq = record { beq = key_eq; beq_iff = key_eq_iff }

module _ {V : Type 0} where
  abbrev pub row_of : Option (Map V) → CString → Option V
  row_of none k = none
  row_of (some inner) k = map_get inner k

  unfoldable pub nested_get : Map (Map V) → Key → Option V
  nested_get m (s, k) = row_of (map_get m s) k

  -- The inner map is made when it is first needed.
  abbrev pub inner_of : Option (Map V) → Map V
  inner_of none = some []
  inner_of (some inner) = inner

  unfoldable pub nested_put : Map (Map V) → Key → V → Map (Map V)
  nested_put m (s, k) v = map_add true m s (map_add true (inner_of (map_get m s)) k v)

  unfoldable pub remove_inner : Map (Map V) → CString → ℤ × Map V → Map (Map V)
  remove_inner m s (status, inner) =
      if ltb_ℤ status (pos 0) then (map_delete m s).1 else map_add true m s inner

  unfoldable pub remove_row : Map (Map V) → CString → CString → Option (Map V) → Map (Map V)
  unfolding remove_inner
  remove_row m s k none = m
  remove_row m s k (some inner) = remove_inner m s (map_delete inner k)

  unfoldable pub nested_remove : Map (Map V) → Key → Map (Map V)
  unfolding remove_row
  nested_remove m (s, k) = remove_row m s k (map_get m s)

  unfoldable pub nested_count : Map (Map V) → ℕ
  nested_count none = 0
  nested_count (some m) = weigh map_count m

  pub record IsNested (m : Map (Map V)) : Type 0 where
    pub outer : IsMap m
    pub inners : (s : CString) (inner : Map V) → map_get m s ≡ some inner → IsMap inner
