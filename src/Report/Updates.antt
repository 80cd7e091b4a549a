-- ===== src/Report/Updates.antt =====
-- The update functions of src/pinba_update_report.h, one pair for each grouping.
use pinba_engine.Common.{CString, List, nat_eq, refl, string_eq, ◌≡◌}
use pinba_engine.Floats.{Floats}
use pinba_engine.Histogram.{HistogramConfig}
use pinba_engine.Record.{StatsRecord}
use pinba_engine.Report.{Label, Report, update_add, update_delete}
use pinba_engine.Report.Groups.{
  report10_index, report10_labels, report11_index, report11_labels, report12_index, report12_labels,
  report13_index, report13_labels, report14_index, report14_labels, report15_index, report15_labels,
  report16_index, report16_labels, report17_index, report17_labels, report18_index, report18_labels,
  report1_index, report1_labels, report2_index, report2_labels, report3_index, report3_labels,
  report4_index, report4_labels, report5_index, report5_labels, report6_index, report6_labels,
  report7_index, report7_labels, report8_index, report8_labels, report9_index, report9_labels,
}

module _ (fl : Floats) (cfg : HistogramConfig fl) where
  unfoldable pub update_report1_add : StatsRecord fl → Report fl → Report fl
  update_report1_add = update_add fl cfg report1_index report1_labels

  unfoldable pub update_report1_delete : StatsRecord fl → Report fl → Report fl
  update_report1_delete = update_delete fl cfg report1_index report1_labels

  unfoldable pub update_report2_add : StatsRecord fl → Report fl → Report fl
  update_report2_add = update_add fl cfg report2_index report2_labels

  unfoldable pub update_report2_delete : StatsRecord fl → Report fl → Report fl
  update_report2_delete = update_delete fl cfg report2_index report2_labels

  unfoldable pub update_report3_add : StatsRecord fl → Report fl → Report fl
  update_report3_add = update_add fl cfg report3_index report3_labels

  unfoldable pub update_report3_delete : StatsRecord fl → Report fl → Report fl
  update_report3_delete = update_delete fl cfg report3_index report3_labels

  unfoldable pub update_report4_add : StatsRecord fl → Report fl → Report fl
  update_report4_add = update_add fl cfg report4_index report4_labels

  unfoldable pub update_report4_delete : StatsRecord fl → Report fl → Report fl
  update_report4_delete = update_delete fl cfg report4_index report4_labels

  unfoldable pub update_report5_add : StatsRecord fl → Report fl → Report fl
  update_report5_add = update_add fl cfg report5_index report5_labels

  unfoldable pub update_report5_delete : StatsRecord fl → Report fl → Report fl
  update_report5_delete = update_delete fl cfg report5_index report5_labels

  unfoldable pub update_report6_add : StatsRecord fl → Report fl → Report fl
  update_report6_add = update_add fl cfg report6_index report6_labels

  unfoldable pub update_report6_delete : StatsRecord fl → Report fl → Report fl
  update_report6_delete = update_delete fl cfg report6_index report6_labels

  unfoldable pub update_report7_add : StatsRecord fl → Report fl → Report fl
  update_report7_add = update_add fl cfg report7_index report7_labels

  unfoldable pub update_report7_delete : StatsRecord fl → Report fl → Report fl
  update_report7_delete = update_delete fl cfg report7_index report7_labels

  unfoldable pub update_report8_add : StatsRecord fl → Report fl → Report fl
  update_report8_add = update_add fl cfg report8_index report8_labels

  unfoldable pub update_report8_delete : StatsRecord fl → Report fl → Report fl
  update_report8_delete = update_delete fl cfg report8_index report8_labels

  unfoldable pub update_report9_add : StatsRecord fl → Report fl → Report fl
  update_report9_add = update_add fl cfg report9_index report9_labels

  unfoldable pub update_report9_delete : StatsRecord fl → Report fl → Report fl
  update_report9_delete = update_delete fl cfg report9_index report9_labels

  unfoldable pub update_report10_add : StatsRecord fl → Report fl → Report fl
  update_report10_add = update_add fl cfg report10_index report10_labels

  unfoldable pub update_report10_delete : StatsRecord fl → Report fl → Report fl
  update_report10_delete = update_delete fl cfg report10_index report10_labels

  unfoldable pub update_report11_add : StatsRecord fl → Report fl → Report fl
  update_report11_add = update_add fl cfg report11_index report11_labels

  unfoldable pub update_report11_delete : StatsRecord fl → Report fl → Report fl
  update_report11_delete = update_delete fl cfg report11_index report11_labels

  unfoldable pub update_report12_add : StatsRecord fl → Report fl → Report fl
  update_report12_add = update_add fl cfg report12_index report12_labels

  unfoldable pub update_report12_delete : StatsRecord fl → Report fl → Report fl
  update_report12_delete = update_delete fl cfg report12_index report12_labels

  unfoldable pub update_report13_add : StatsRecord fl → Report fl → Report fl
  update_report13_add = update_add fl cfg report13_index report13_labels

  unfoldable pub update_report13_delete : StatsRecord fl → Report fl → Report fl
  update_report13_delete = update_delete fl cfg report13_index report13_labels

  unfoldable pub update_report14_add : StatsRecord fl → Report fl → Report fl
  update_report14_add = update_add fl cfg report14_index report14_labels

  unfoldable pub update_report14_delete : StatsRecord fl → Report fl → Report fl
  update_report14_delete = update_delete fl cfg report14_index report14_labels

  unfoldable pub update_report15_add : StatsRecord fl → Report fl → Report fl
  update_report15_add = update_add fl cfg report15_index report15_labels

  unfoldable pub update_report15_delete : StatsRecord fl → Report fl → Report fl
  update_report15_delete = update_delete fl cfg report15_index report15_labels

  unfoldable pub update_report16_add : StatsRecord fl → Report fl → Report fl
  update_report16_add = update_add fl cfg report16_index report16_labels

  unfoldable pub update_report16_delete : StatsRecord fl → Report fl → Report fl
  update_report16_delete = update_delete fl cfg report16_index report16_labels

  unfoldable pub update_report17_add : StatsRecord fl → Report fl → Report fl
  update_report17_add = update_add fl cfg report17_index report17_labels

  unfoldable pub update_report17_delete : StatsRecord fl → Report fl → Report fl
  update_report17_delete = update_delete fl cfg report17_index report17_labels

  unfoldable pub update_report18_add : StatsRecord fl → Report fl → Report fl
  update_report18_add = update_add fl cfg report18_index report18_labels

  unfoldable pub update_report18_delete : StatsRecord fl → Report fl → Report fl
  update_report18_delete = update_delete fl cfg report18_index report18_labels

-- The base reports with an index, by their table types.
pub data BaseReport : Type 0 where
  report1 report2 report3 report4 report5 report6 report7 report8 report9 report10 report11 report12
        report13 report14 report15 report16 report17 report18 :
      BaseReport

module _ (fl : Floats) (cfg : HistogramConfig fl) where
  unfoldable pub index_of : BaseReport → StatsRecord fl → CString
  index_of report1 = report1_index
  index_of report2 = report2_index
  index_of report3 = report3_index
  index_of report4 = report4_index
  index_of report5 = report5_index
  index_of report6 = report6_index
  index_of report7 = report7_index
  index_of report8 = report8_index
  index_of report9 = report9_index
  index_of report10 = report10_index
  index_of report11 = report11_index
  index_of report12 = report12_index
  index_of report13 = report13_index
  index_of report14 = report14_index
  index_of report15 = report15_index
  index_of report16 = report16_index
  index_of report17 = report17_index
  index_of report18 = report18_index

  unfoldable pub labels_of : BaseReport → StatsRecord fl → List Label
  labels_of report1 = report1_labels
  labels_of report2 = report2_labels
  labels_of report3 = report3_labels
  labels_of report4 = report4_labels
  labels_of report5 = report5_labels
  labels_of report6 = report6_labels
  labels_of report7 = report7_labels
  labels_of report8 = report8_labels
  labels_of report9 = report9_labels
  labels_of report10 = report10_labels
  labels_of report11 = report11_labels
  labels_of report12 = report12_labels
  labels_of report13 = report13_labels
  labels_of report14 = report14_labels
  labels_of report15 = report15_labels
  labels_of report16 = report16_labels
  labels_of report17 = report17_labels
  labels_of report18 = report18_labels

  unfoldable pub add_func : BaseReport → StatsRecord fl → Report fl → Report fl
  add_func report1 = update_report1_add fl cfg
  add_func report2 = update_report2_add fl cfg
  add_func report3 = update_report3_add fl cfg
  add_func report4 = update_report4_add fl cfg
  add_func report5 = update_report5_add fl cfg
  add_func report6 = update_report6_add fl cfg
  add_func report7 = update_report7_add fl cfg
  add_func report8 = update_report8_add fl cfg
  add_func report9 = update_report9_add fl cfg
  add_func report10 = update_report10_add fl cfg
  add_func report11 = update_report11_add fl cfg
  add_func report12 = update_report12_add fl cfg
  add_func report13 = update_report13_add fl cfg
  add_func report14 = update_report14_add fl cfg
  add_func report15 = update_report15_add fl cfg
  add_func report16 = update_report16_add fl cfg
  add_func report17 = update_report17_add fl cfg
  add_func report18 = update_report18_add fl cfg

  unfoldable pub delete_func : BaseReport → StatsRecord fl → Report fl → Report fl
  delete_func report1 = update_report1_delete fl cfg
  delete_func report2 = update_report2_delete fl cfg
  delete_func report3 = update_report3_delete fl cfg
  delete_func report4 = update_report4_delete fl cfg
  delete_func report5 = update_report5_delete fl cfg
  delete_func report6 = update_report6_delete fl cfg
  delete_func report7 = update_report7_delete fl cfg
  delete_func report8 = update_report8_delete fl cfg
  delete_func report9 = update_report9_delete fl cfg
  delete_func report10 = update_report10_delete fl cfg
  delete_func report11 = update_report11_delete fl cfg
  delete_func report12 = update_report12_delete fl cfg
  delete_func report13 = update_report13_delete fl cfg
  delete_func report14 = update_report14_delete fl cfg
  delete_func report15 = update_report15_delete fl cfg
  delete_func report16 = update_report16_delete fl cfg
  delete_func report17 = update_report17_delete fl cfg
  delete_func report18 = update_report18_delete fl cfg

  pub add_func-update_add :
      (t : BaseReport) → add_func t ≡ update_add fl cfg (index_of t) (labels_of t)
  unfolding add_func index_of labels_of update_report1_add update_report2_add update_report3_add
      update_report4_add update_report5_add update_report6_add update_report7_add update_report8_add
      update_report9_add update_report10_add update_report11_add update_report12_add
      update_report13_add update_report14_add update_report15_add update_report16_add
      update_report17_add update_report18_add
  add_func-update_add report1 = refl
  add_func-update_add report2 = refl
  add_func-update_add report3 = refl
  add_func-update_add report4 = refl
  add_func-update_add report5 = refl
  add_func-update_add report6 = refl
  add_func-update_add report7 = refl
  add_func-update_add report8 = refl
  add_func-update_add report9 = refl
  add_func-update_add report10 = refl
  add_func-update_add report11 = refl
  add_func-update_add report12 = refl
  add_func-update_add report13 = refl
  add_func-update_add report14 = refl
  add_func-update_add report15 = refl
  add_func-update_add report16 = refl
  add_func-update_add report17 = refl
  add_func-update_add report18 = refl

  pub delete_func-update_delete :
      (t : BaseReport) → delete_func t ≡ update_delete fl cfg (index_of t) (labels_of t)
  unfolding delete_func index_of labels_of update_report1_delete update_report2_delete
      update_report3_delete update_report4_delete update_report5_delete update_report6_delete
      update_report7_delete update_report8_delete update_report9_delete update_report10_delete
      update_report11_delete update_report12_delete update_report13_delete update_report14_delete
      update_report15_delete update_report16_delete update_report17_delete update_report18_delete
  delete_func-update_delete report1 = refl
  delete_func-update_delete report2 = refl
  delete_func-update_delete report3 = refl
  delete_func-update_delete report4 = refl
  delete_func-update_delete report5 = refl
  delete_func-update_delete report6 = refl
  delete_func-update_delete report7 = refl
  delete_func-update_delete report8 = refl
  delete_func-update_delete report9 = refl
  delete_func-update_delete report10 = refl
  delete_func-update_delete report11 = refl
  delete_func-update_delete report12 = refl
  delete_func-update_delete report13 = refl
  delete_func-update_delete report14 = refl
  delete_func-update_delete report15 = refl
  delete_func-update_delete report16 = refl
  delete_func-update_delete report17 = refl
  delete_func-update_delete report18 = refl
