-- ===== src/Registry.antt =====
-- The reports of one kind in the daemon's state, and the functions that make a report when a table
-- first asks for it: src/pinba_regenerate_report.h, src/ha_pinba.cc and the arrays of src/data.cc.
-- A report is its address; the locks are held throughout.
pub mod Base
pub mod Outcome
pub mod Tags
pub mod Rtags
pub mod Held
pub mod Words
use pinba_engine.Common.{
  Bool, CString, List, Option, [], false, if◌then◌else◌, nat_eq, negsuc, none, pos, some, string_eq,
  true, ℕ, ℤ, ◌++◌, ◌+◌, ◌-◌, ◌==◌, ◌||◌, ◌∷◌,
}
use pinba_engine.Map.{Map, map_add, map_get}
use pinba_engine.Lmap.{Lmap, lmap_add, lmap_get}

-- `pinba_array_t`, whose `data` may be the null pointer.
pub record Array : Type 0 where
  pub data_at : Option (List ℕ)
  pub size : ℕ

-- `pinba_report_tables`: the tables of a report by their number.
pub record ReportTables : Type 0 where
  pub std : Option ℕ
  pub tables : ℕ

-- What a new report is set up with: its type, which stands for the two update functions too, the
-- conditions of its table, and the number of tables that use it.
pub record NewReport (C : Type 0) : Type 0 where
  pub report_type : ℕ
  pub report_index : CString
  pub conditions : C
  pub tag_ids : List ℕ
  pub tag_words : List CString
  pub indexed : Bool
  pub time_interval : ℕ
  pub use_cnt : ℕ

pub record Registry (C : Type 0) : Type 0 where
  pub reports : Map ℕ
  pub reports_arr : Array
  pub reports_to_tables : Map ReportTables
  pub memory : Lmap (NewReport C)

-- The part of `PINBA_SHARE` that is read, with what `pinba_parse_conditions` makes of the rest.
pub record Share (C : Type 0) : Type 0 where
  pub index : CString
  pub params : List CString
  pub share_conditions : C

abbrev pub items_of : Array → List ℕ
items_of a = elim a.data_at [ none ↦ [] | some xs ↦ xs ]

-- `grows`: `realloc` does not fail. When it does the old block is lost.
unfoldable pub array_add : Bool → Array → ℕ → ℤ × Array
array_add grows array report =
    if grows
    then (pos 0, record { data_at = some (items_of array ++ report ∷ []); size = array.size + 1 })
    else (negsuc 0, record array { data_at = none })

abbrev pub without : ℕ → List ℕ → List ℕ
without report [] = []
without report (x ∷ xs) = if x == report then xs else x ∷ without report xs

abbrev pub contains : ℕ → List ℕ → Bool
contains report [] = false
contains report (x ∷ xs) = (x == report) || contains report xs

-- The first item that is the report goes, and those after it move up.
unfoldable pub array_delete : Array → ℕ → ℤ × Array
array_delete array report =
    if contains report (items_of array)
    then (pos 0, record { data_at = some (without report (items_of array)); size = array.size - 1 })
    else (negsuc 0, array)

module _ {C : Type 0} where
  -- The number of tables is written into the report that is not yet known to them.
  abbrev pub set_use_cnt : ℕ → Option (NewReport C) → Lmap (NewReport C) → ℕ → Lmap (NewReport C)
  set_use_cnt n none memory report = memory
  set_use_cnt n (some r) memory report = lmap_add memory report (record r { use_cnt = n })

  unfoldable pub update_report_tables : Registry C → ℕ → CString → Bool × Registry C
  update_report_tables reg report index = elim (map_get reg.reports_to_tables index) [
    | none ↦ (false, reg)
    | some tables ↦ elim tables.std [
      | some old ↦ (true, reg)
      | none ↦ (
        true,
        record reg {
          reports_to_tables =
              map_add true reg.reports_to_tables index (record tables { std = some report });
          memory = set_use_cnt tables.tables (lmap_get reg.memory report) reg.memory report;
        },
      )
    ]
  ]

  unfoldable pub new_report : ℕ → Share C → NewReport C
  new_report report_type share = record {
    report_type = report_type;
    report_index = share.index;
    conditions = share.share_conditions;
    tag_ids = [];
    tag_words = [];
    indexed = false;
    time_interval = 1;
    use_cnt = 0;
  }
