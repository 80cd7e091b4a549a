-- ===== src/Report/Added.antt =====
-- What the floating-point sums and the labels of a row are after a record was added to its group,
-- in src/pinba_update_report_tpl.h and src/data.cc.
use pinba_engine.Common.{List, Option, nat_eq, none, pos, refl, some, string_eq, ◌≡◌}
use pinba_engine.Time.{}
use pinba_engine.Floats.{Floats}
use pinba_engine.Lmap.{}
use pinba_engine.Histogram.{HistogramConfig}
use pinba_engine.Record.{StatsRecord}
use pinba_engine.Report.{Label, ReportData, add_to_row, new_row}

module _ (fl : Floats) where
  open fl use {plus, of_int}

  -- A new row starts from 0 and has the labels; an old one keeps its labels.
  abbrev pub RowAdded :
      List Label → StatsRecord fl → Option (ReportData fl) → Option (ReportData fl) → Type 0
  RowAdded labels r before none = ⊥
  RowAdded labels r none (some d) =
      (d.kbytes_total ≡ plus (of_int (pos 0)) r.doc_size)
      × (d.memory_footprint ≡ plus (of_int (pos 0)) r.memory_footprint)
      × (d.labels ≡ labels)
  RowAdded labels r (some old) (some d) =
      (d.kbytes_total ≡ plus old.kbytes_total r.doc_size)
      × (d.memory_footprint ≡ plus old.memory_footprint r.memory_footprint)
      × (d.labels ≡ old.labels)

  pub add_to_row-RowAdded :
      (cfg : HistogramConfig fl) (labels : List Label) (r : StatsRecord fl)
      (o : Option (ReportData fl))
      → RowAdded labels r o
          (some (add_to_row fl cfg r (elim o [ none ↦ new_row fl cfg labels | some d ↦ d ])))
  unfolding add_to_row new_row
  add_to_row-RowAdded cfg labels r none = (refl, refl, refl)
  add_to_row-RowAdded cfg labels r (some d) = (refl, refl, refl)
