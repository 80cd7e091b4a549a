-- ===== src/Store/Flat.antt =====
-- One map from the index of a row to the row: src/pinba_map.cc.
use pinba_engine.Common.{CString, nat_eq, some, string_eq, true, ◌+◌, ◌≡◌}
use pinba_engine.Map.{
  IsMap, Map, map_add, map_add-IsMap, map_count, map_count-add, map_count-delete, map_delete,
  map_delete-IsMap, map_get, map_get-add, map_get-delete,
}
use pinba_engine.Store.{Store}

abbrev flat_remove : {V : Type 0} → Map V → CString → Map V
flat_remove m k = (map_delete m k).1

pub entries-flat_remove :
    {V : Type 0} (m : Map V) (k : CString) (v : V)
    → IsMap m
    → map_get m k ≡ some v
    → map_count (flat_remove m k) + 1 ≡ map_count m
entries-flat_remove m k v d h = map_count-delete m k h

unfoldable pub flat_store : (V : Type 0) → Store CString V
flat_store V = record {
  Table = Map V;
  IsTable = λ m. IsMap m;
  get = map_get;
  put = map_add true;
  remove = flat_remove;
  entries = map_count;
  get-put = map_get-add;
  get-remove = map_get-delete;
  put-IsTable = map_add-IsMap;
  remove-IsTable = map_delete-IsMap;
  entries-put = λ m k v d. map_count-add m k v;
  entries-remove = entries-flat_remove;
}
