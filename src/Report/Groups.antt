-- ===== src/Report/Groups.antt =====
-- The eighteen groupings of src/pinba_update_report.h: how each report makes its index and the
-- labels of a new row. The sizes of the buffers are those of src/pinba_limits.h, written out.
pub mod Keys
use pinba_engine.Common.{CString, List, [], nat_eq, string_eq, ℕ, ◌++◌, ◌∷◌}
use pinba_engine.Floats.{Floats}
use pinba_engine.Text.{append_delimiter, append_truncated, copy_truncated, decimal}
use pinba_engine.Histogram.{}
use pinba_engine.Record.{StatsRecord}
use pinba_engine.Report.{Label, host_label, schema_label, script_label, server_label, status_label}

-- The delimiters.
abbrev pub slash : ℕ
slash = b'/'

abbrev pub colon : ℕ
colon = b':'

module _ {fl : Floats} where
  unfoldable pub report1_index : StatsRecord fl → CString
  report1_index r = r.script_name

  unfoldable pub report1_labels : StatsRecord fl → List Label
  report1_labels r = []

  unfoldable pub report2_index : StatsRecord fl → CString
  report2_index r = r.server_name

  unfoldable pub report2_labels : StatsRecord fl → List Label
  report2_labels r = []

  unfoldable pub report3_index : StatsRecord fl → CString
  report3_index r = r.hostname

  unfoldable pub report3_labels : StatsRecord fl → List Label
  report3_labels r = []

  unfoldable pub report4_index : StatsRecord fl → CString
  report4_index r =
      let index0 = copy_truncated 195 r.server_name in
      let index1 = append_delimiter 195 index0 slash in append_truncated 195 index1 r.script_name

  unfoldable pub report4_labels : StatsRecord fl → List Label
  report4_labels r =
      server_label (copy_truncated 65 r.server_name)
      ∷ script_label (copy_truncated 129 r.script_name)
      ∷ []

  unfoldable pub report5_index : StatsRecord fl → CString
  report5_index r =
      let index0 = copy_truncated 195 r.hostname in
      let index1 = append_delimiter 195 index0 slash in append_truncated 195 index1 r.script_name

  unfoldable pub report5_labels : StatsRecord fl → List Label
  report5_labels r =
      host_label (copy_truncated 65 r.hostname)
      ∷ script_label (copy_truncated 129 r.script_name)
      ∷ []

  unfoldable pub report6_index : StatsRecord fl → CString
  report6_index r =
      let index0 = copy_truncated 131 r.hostname in
      let index1 = append_delimiter 131 index0 slash in append_truncated 131 index1 r.server_name

  unfoldable pub report6_labels : StatsRecord fl → List Label
  report6_labels r =
      host_label (copy_truncated 65 r.hostname)
      ∷ server_label (copy_truncated 65 r.server_name)
      ∷ []

  unfoldable pub report7_index : StatsRecord fl → CString
  report7_index r =
      let index0 = copy_truncated 261 r.hostname in
      let index1 = append_delimiter 261 index0 colon in
      let index2 = append_truncated 261 index1 r.server_name in
      let index3 = append_delimiter 261 index2 slash in append_truncated 261 index3 r.script_name

  unfoldable pub report7_labels : StatsRecord fl → List Label
  report7_labels r =
      host_label (copy_truncated 65 r.hostname)
      ∷ server_label (copy_truncated 65 r.server_name)
      ∷ script_label (copy_truncated 129 r.script_name)
      ∷ []

  unfoldable pub report8_index : StatsRecord fl → CString
  report8_index r = decimal r.status

  unfoldable pub report8_labels : StatsRecord fl → List Label
  report8_labels r = status_label r.status ∷ []

  unfoldable pub report9_index : StatsRecord fl → CString
  report9_index r =
      let index0 = decimal r.status ++ colon ∷ [] in append_truncated 163 index0 r.script_name

  unfoldable pub report9_labels : StatsRecord fl → List Label
  report9_labels r = status_label r.status ∷ script_label (copy_truncated 129 r.script_name) ∷ []

  unfoldable pub report10_index : StatsRecord fl → CString
  report10_index r = let index0 = decimal r.status in append_truncated 99 index0 r.server_name

  unfoldable pub report10_labels : StatsRecord fl → List Label
  report10_labels r = status_label r.status ∷ server_label (copy_truncated 65 r.server_name) ∷ []

  unfoldable pub report11_index : StatsRecord fl → CString
  report11_index r = let index0 = decimal r.status in append_truncated 99 index0 r.hostname

  unfoldable pub report11_labels : StatsRecord fl → List Label
  report11_labels r = status_label r.status ∷ host_label (copy_truncated 65 r.hostname) ∷ []

  unfoldable pub report12_index : StatsRecord fl → CString
  report12_index r =
      let index0 = decimal r.status in
      let index1 = append_truncated 229 index0 r.hostname in
      let index2 = append_delimiter 229 index1 slash in append_truncated 229 index2 r.script_name

  unfoldable pub report12_labels : StatsRecord fl → List Label
  report12_labels r =
      status_label r.status
      ∷ host_label (copy_truncated 65 r.hostname)
      ∷ script_label (copy_truncated 129 r.script_name)
      ∷ []

  unfoldable pub report13_index : StatsRecord fl → CString
  report13_index r = r.schema

  unfoldable pub report13_labels : StatsRecord fl → List Label
  report13_labels r = []

  unfoldable pub report14_index : StatsRecord fl → CString
  report14_index r =
      let index0 = copy_truncated 147 r.schema in
      let index1 = append_delimiter 147 index0 colon in append_truncated 147 index1 r.script_name

  unfoldable pub report14_labels : StatsRecord fl → List Label
  report14_labels r =
      schema_label (copy_truncated 17 r.schema)
      ∷ script_label (copy_truncated 129 r.script_name)
      ∷ []

  unfoldable pub report15_index : StatsRecord fl → CString
  report15_index r =
      let index0 = copy_truncated 83 r.schema in
      let index1 = append_delimiter 83 index0 colon in append_truncated 83 index1 r.server_name

  unfoldable pub report15_labels : StatsRecord fl → List Label
  report15_labels r =
      schema_label (copy_truncated 17 r.schema)
      ∷ server_label (copy_truncated 65 r.server_name)
      ∷ []

  unfoldable pub report16_index : StatsRecord fl → CString
  report16_index r =
      let index0 = copy_truncated 83 r.schema in
      let index1 = append_delimiter 83 index0 colon in append_truncated 83 index1 r.hostname

  unfoldable pub report16_labels : StatsRecord fl → List Label
  report16_labels r =
      schema_label (copy_truncated 17 r.schema) ∷ host_label (copy_truncated 65 r.hostname) ∷ []

  unfoldable pub report17_index : StatsRecord fl → CString
  report17_index r =
      let index0 = copy_truncated 213 r.schema in
      let index1 = append_delimiter 213 index0 slash in
      let index2 = append_truncated 213 index1 r.hostname in
      let index3 = append_delimiter 213 index2 slash in append_truncated 213 index3 r.script_name

  unfoldable pub report17_labels : StatsRecord fl → List Label
  report17_labels r =
      schema_label (copy_truncated 17 r.schema)
      ∷ host_label (copy_truncated 65 r.hostname)
      ∷ script_label (copy_truncated 129 r.script_name)
      ∷ []

  unfoldable pub report18_index : StatsRecord fl → CString
  report18_index r =
      let index0 = decimal r.status ++ colon ∷ [] in
      let index1 = append_truncated 117 index0 r.schema in
      let index2 = append_delimiter 117 index1 slash in append_truncated 117 index2 r.hostname

  unfoldable pub report18_labels : StatsRecord fl → List Label
  report18_labels r =
      status_label r.status
      ∷ schema_label (copy_truncated 17 r.schema)
      ∷ host_label (copy_truncated 65 r.hostname)
      ∷ []
