-- ===== src/Registry/Base.antt =====
-- `pinba_regenerate_report_info` and `pinba_regenerate_report1` to 18, which differ in the type,
-- a number of `pinba_report_type`, and the functions of the report: src/pinba_regenerate_report.h.
use pinba_engine.Common.{
  Bool, CString, Option, if◌then◌else◌, ltb_ℤ, nat_eq, none, pos, some, string_eq, true, ℕ,
}
use pinba_engine.Map.{map_add, map_delete, map_get}
use pinba_engine.Lmap.{lmap_add, lmap_delete}
use pinba_engine.Registry.{
  Registry, Share, array_add, array_delete, new_report, update_report_tables,
}

module _ {C : Type 0} where
  -- The report is freed, and no longer in the map.
  unfoldable pub forget : Registry C → ℕ → CString → Registry C
  forget reg report index = record reg {
    reports = (map_delete reg.reports index).1;
    memory = (lmap_delete reg.memory report).1;
  }

  -- With the report in the map and the array: the tables are told.
  unfoldable pub tell_tables : Registry C → ℕ → CString → Option ℕ × Registry C
  unfolding forget
  tell_tables reg report index =
      let (known, reg') = update_report_tables reg report index in
      if known then (some report, reg') else (
        none,
        forget (record reg' { reports_arr = (array_delete reg'.reports_arr report).1 }) report
            index,
      )

  -- With the report in the map: it enters the array.
  unfoldable pub enter_array : Bool → Registry C → ℕ → CString → Option ℕ × Registry C
  unfolding tell_tables
  enter_array grows reg report index =
      let (status, array) = array_add grows reg.reports_arr report in
      if ltb_ℤ status (pos 0)
      then (none, forget (record reg { reports_arr = array }) report index)
      else tell_tables (record reg { reports_arr = array }) report index

  -- `alloc`: the address that `calloc` gives, `none` if it fails.
  unfoldable pub create_report : ℕ → Share C → Bool → Registry C → Option ℕ → Option ℕ × Registry C
  unfolding enter_array
  create_report report_type share grows reg none = (none, reg)
  create_report report_type share grows reg (some report) =
      enter_array grows
        (record reg {
          reports = map_add true reg.reports share.index report;
          memory = lmap_add reg.memory report (new_report report_type share);
        })
        report share.index

  unfoldable pub regenerate : ℕ → Share C → Option ℕ → Bool → Registry C → Option ℕ × Registry C
  unfolding create_report
  regenerate report_type share alloc grows reg = elim (map_get reg.reports share.index) [
    | some report ↦ (some report, reg)
    | none ↦ create_report report_type share grows reg alloc
  ]

  unfoldable pub regenerate_report_info :
      Share C → Option ℕ → Bool → Registry C → Option ℕ × Registry C
  regenerate_report_info = regenerate 8

  unfoldable pub regenerate_report1 : Share C → Option ℕ → Bool → Registry C → Option ℕ × Registry C
  regenerate_report1 = regenerate 9

  unfoldable pub regenerate_report2 : Share C → Option ℕ → Bool → Registry C → Option ℕ × Registry C
  regenerate_report2 = regenerate 10

  unfoldable pub regenerate_report3 : Share C → Option ℕ → Bool → Registry C → Option ℕ × Registry C
  regenerate_report3 = regenerate 11

  unfoldable pub regenerate_report4 : Share C → Option ℕ → Bool → Registry C → Option ℕ × Registry C
  regenerate_report4 = regenerate 12

  unfoldable pub regenerate_report5 : Share C → Option ℕ → Bool → Registry C → Option ℕ × Registry C
  regenerate_report5 = regenerate 13

  unfoldable pub regenerate_report6 : Share C → Option ℕ → Bool → Registry C → Option ℕ × Registry C
  regenerate_report6 = regenerate 14

  unfoldable pub regenerate_report7 : Share C → Option ℕ → Bool → Registry C → Option ℕ × Registry C
  regenerate_report7 = regenerate 15

  unfoldable pub regenerate_report8 : Share C → Option ℕ → Bool → Registry C → Option ℕ × Registry C
  regenerate_report8 = regenerate 16

  unfoldable pub regenerate_report9 : Share C → Option ℕ → Bool → Registry C → Option ℕ × Registry C
  regenerate_report9 = regenerate 17

  unfoldable pub regenerate_report10 :
      Share C → Option ℕ → Bool → Registry C → Option ℕ × Registry C
  regenerate_report10 = regenerate 18

  unfoldable pub regenerate_report11 :
      Share C → Option ℕ → Bool → Registry C → Option ℕ × Registry C
  regenerate_report11 = regenerate 19

  unfoldable pub regenerate_report12 :
      Share C → Option ℕ → Bool → Registry C → Option ℕ × Registry C
  regenerate_report12 = regenerate 20

  unfoldable pub regenerate_report13 :
      Share C → Option ℕ → Bool → Registry C → Option ℕ × Registry C
  regenerate_report13 = regenerate 21

  unfoldable pub regenerate_report14 :
      Share C → Option ℕ → Bool → Registry C → Option ℕ × Registry C
  regenerate_report14 = regenerate 22

  unfoldable pub regenerate_report15 :
      Share C → Option ℕ → Bool → Registry C → Option ℕ × Registry C
  regenerate_report15 = regenerate 23

  unfoldable pub regenerate_report16 :
      Share C → Option ℕ → Bool → Registry C → Option ℕ × Registry C
  regenerate_report16 = regenerate 24

  unfoldable pub regenerate_report17 :
      Share C → Option ℕ → Bool → Registry C → Option ℕ × Registry C
  regenerate_report17 = regenerate 25

  unfoldable pub regenerate_report18 :
      Share C → Option ℕ → Bool → Registry C → Option ℕ × Registry C
  regenerate_report18 = regenerate 26
