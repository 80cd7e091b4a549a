-- ===== src/Store.antt =====
-- How the rows of a report are kept behind `void *results`: the operations that the updates need
-- of src/pinba_map.cc, with their laws. `Store.Flat` is one map, and `Store.Nested` a map of maps,
-- as the reports by script or host have it in src/data.cc.
pub mod Flat
pub mod Nested
use pinba_engine.Common.{
  Eq, Option, fresh, if◌then◌else◌, nat_eq, none, some, string_eq, ℕ, ◌+◌, ◌≡◌,
}

pub record Store (K V : Type 0) ⦃e : Eq K⦄ : Type 1 where
  pub Table : Type 0
  pub IsTable : Table → Type 0
  pub get : Table → K → Option V
  pub put : Table → K → V → Table
  pub remove : Table → K → Table
  pub entries : Table → ℕ
  pub get-put :
      (m : Table) (k j : K) (v : V) → get (put m k v) j ≡ (if e.beq k j then some v else get m j)
  pub get-remove :
      (m : Table) (k j : K) → IsTable m → get (remove m k) j ≡ (if e.beq k j then none else get m j)
  pub put-IsTable : (m : Table) (k : K) (v : V) → IsTable m → IsTable (put m k v)
  pub remove-IsTable : (m : Table) (k : K) → IsTable m → IsTable (remove m k)
  pub entries-put :
      (m : Table) (k : K) (v : V) → IsTable m → entries (put m k v) ≡ entries m + fresh (get m k)
  pub entries-remove :
      (m : Table) (k : K) (v : V)
      → IsTable m
      → get m k ≡ some v
      → entries (remove m k) + 1 ≡ entries m
