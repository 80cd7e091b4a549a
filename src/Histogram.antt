-- ===== src/Histogram.antt =====
-- `pinba_update_histogram` of src/pinba.h: a sparse map from bucket numbers to counts.
pub mod Counts
use pinba_engine.Common.{
  Option, add64, if◌then◌else◌, ltb, ltb_ℤ, nat_eq, negsuc, none, not, pos, some, string_eq, sub64,
  ℕ, ℤ, ◌%◌, ◌-ℤ◌, ◌-◌, ◌==◌, ◌^◌,
}
use pinba_engine.Time.{Timeval}
use pinba_engine.Floats.{Floats, should_track_histogram_sample, timeval_to_float}
use pinba_engine.Lmap.{Lmap, lmap_add, lmap_delete, lmap_get}

-- The part of a report and of the daemon's settings that the function reads.
pub record HistogramConfig (fl : Floats) : Type 0 where
  pub histogram_max_time : ℤ
  pub histogram_segment : fl.Double
  pub histogram_size : ℕ

-- An `int` that is added to a `size_t`.
abbrev pub size_of_int : ℤ → ℕ
size_of_int (pos n) = n % 2 ^ 64
size_of_int (negsuc n) = (2 ^ 64 - 1 - n % 2 ^ 64) % 2 ^ 64

-- A stored count is a pointer, and a missing entry the null pointer.
unfoldable pub histogram_value : Lmap ℕ → ℕ → ℕ
histogram_value h slot_num = elim (lmap_get h slot_num) [ none ↦ 0 | some v ↦ v ]

module _ (fl : Floats) (cfg : HistogramConfig fl) where
  open fl use {Double, of_int, over, le, trunc}
  open cfg use {histogram_max_time, histogram_segment, histogram_size}

  -- The time of one hit, when a timer counts several.
  unfoldable pub sample_time : Timeval → ℤ → Double
  sample_time time add =
      let time_value = timeval_to_float fl time in
      if ltb_ℤ (pos 1) add
      then over time_value (of_int add)
      else if ltb_ℤ add (negsuc 0)
      then over time_value (of_int (pos 0 -ℤ add))
      else time_value

  -- The bucket; `none` if the sample is not tracked. `slot_num` is an `unsigned int`.
  unfoldable pub histogram_slot : Timeval → ℤ → Option ℕ
  histogram_slot time add =
      let time_value = sample_time time add in
      let last = sub64 histogram_size 1 in
      if not (should_track_histogram_sample fl time_value)
      then none
      else if le (of_int histogram_max_time) time_value
      then some (last % 2 ^ 32)
      else let slot_num = trunc (over time_value histogram_segment) in
        if ltb last slot_num then some (last % 2 ^ 32) else some slot_num

  unfoldable pub store_count : Lmap ℕ → ℕ → ℕ → Lmap ℕ
  store_count h slot_num value =
      if value == 0 then (lmap_delete h slot_num).1 else lmap_add h slot_num value

  unfoldable pub update_slot : Lmap ℕ → ℤ → Option ℕ → Lmap ℕ
  update_slot h add none = h
  update_slot h add (some slot_num) =
      store_count h slot_num (add64 (histogram_value h slot_num) (size_of_int add))

  unfoldable pub update_histogram : Lmap ℕ → Timeval → ℤ → Lmap ℕ
  update_histogram h time add = update_slot h add (histogram_slot time add)
