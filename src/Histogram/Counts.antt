-- ===== src/Histogram/Counts.antt =====
-- What `pinba_update_histogram` does to each count.
use pinba_engine.Common.{
  Bool, Bool-cases, Option, add64, arith, false, if◌then◌else◌, inl, inr, int_laws, nat_eq, negsuc,
  none, pos, refl, some, string_eq, suc, zero, ℕ, ℤ, ◌-ℤ◌, ◌<◌, ◌==◌, ◌^◌, ◌≡◌,
}
use pinba_engine.Time.{Timeval}
use pinba_engine.Floats.{Floats}
use pinba_engine.Lmap.{
  IsLmap, Lmap, lmap_add-IsLmap, lmap_delete-IsLmap, lmap_get-add, lmap_get-delete,
}
use pinba_engine.Histogram.{
  HistogramConfig, histogram_slot, histogram_value, sample_time, size_of_int, store_count,
  update_histogram, update_slot,
}

abbrev pub is_slot : Option ℕ → ℕ → Bool
is_slot none j = false
is_slot (some s) j = s == j

neg_zero : pos 0 -ℤ pos 0 ≡ pos 0
unfolding ◌-ℤ◌
neg_zero = refl

neg_suc : (n : ℕ) → pos 0 -ℤ pos (suc n) ≡ negsuc n
neg_suc n = omega int_laws

neg_negsuc : (n : ℕ) → pos 0 -ℤ negsuc n ≡ pos (suc n)
neg_negsuc n = omega int_laws

module _ (fl : Floats) (cfg : HistogramConfig fl) where
  histogram_value-store_count :
      (h : Lmap ℕ) (s v j : ℕ)
      → IsLmap h
      → histogram_value (store_count fl cfg h s v) j ≡ (if s == j then v else histogram_value h j)
  unfolding histogram_value store_count
  histogram_value-store_count h s v j d =
      ground (arith, lmap_get-add h s j v, lmap_get-delete h s j d)

  store_count-IsLmap : (h : Lmap ℕ) (s v : ℕ) → IsLmap h → IsLmap (store_count fl cfg h s v)
  unfolding store_count
  store_count-IsLmap h s v d = elim (Bool-cases (v == 0)) [
    | inl e ↦ rw e (lmap_delete-IsLmap h s d)
    | inr e ↦ rw e (lmap_add-IsLmap h s v d)
  ]

  pub update_slot-IsLmap :
      (h : Lmap ℕ) (add : ℤ) (o : Option ℕ) → IsLmap h → IsLmap (update_slot fl cfg h add o)
  unfolding update_slot
  update_slot-IsLmap h add none d = d
  update_slot-IsLmap h add (some s) d = store_count-IsLmap h s _ d

  pub update_histogram-IsLmap :
      (h : Lmap ℕ) (time : Timeval) (add : ℤ)
      → IsLmap h
      → IsLmap (update_histogram fl cfg h time add)
  unfolding update_histogram
  update_histogram-IsLmap h time add d = update_slot-IsLmap h add (histogram_slot fl cfg time add) d

  histogram_value-update_slot :
      (h : Lmap ℕ) (add : ℤ) (o : Option ℕ) (j : ℕ)
      → IsLmap h
      → histogram_value (update_slot fl cfg h add o) j ≡ (
          if is_slot o j
          then add64 (histogram_value h j) (size_of_int add)
          else histogram_value h j)
  unfolding update_slot
  histogram_value-update_slot h add none j d = refl
  histogram_value-update_slot h add (some s) j d =
      ground
        (arith, histogram_value-store_count h s (add64 (histogram_value h s) (size_of_int add)) j d)

  -- An update of a histogram with distinct buckets adds to the bucket of the sample, modulo 2^64,
  -- and changes no other bucket; a sample that is not tracked changes none.
  pub histogram_value-update_histogram :
      (h : Lmap ℕ) (time : Timeval) (add : ℤ) (j : ℕ)
      → IsLmap h
      → histogram_value (update_histogram fl cfg h time add) j ≡ (
          if is_slot (histogram_slot fl cfg time add) j
          then add64 (histogram_value h j) (size_of_int add)
          else histogram_value h j)
  unfolding update_histogram
  histogram_value-update_histogram h time add j d =
      histogram_value-update_slot h add (histogram_slot fl cfg time add) j d

  sample_time_neg :
      (time : Timeval) (n : ℕ)
      → sample_time fl cfg time (pos 0 -ℤ pos n) ≡ sample_time fl cfg time (pos n)
  unfolding sample_time
  sample_time_neg time zero = rw neg_zero
  sample_time_neg time (suc zero) = rw neg_suc (ground arith)
  sample_time_neg time (suc (suc n)) = rw (neg_suc, neg_negsuc) (ground arith)

  -- Removing a sample looks at the bucket that adding it did.
  pub histogram_slot_neg :
      (time : Timeval) (n : ℕ)
      → histogram_slot fl cfg time (pos 0 -ℤ pos n) ≡ histogram_slot fl cfg time (pos n)
  unfolding histogram_slot
  histogram_slot_neg time n = rw (sample_time_neg time n)

  pub size_of_int_neg :
      (v n : ℕ)
      → v < 2 ^ 64
      → add64 (add64 v (size_of_int (pos n))) (size_of_int (pos 0 -ℤ pos n)) ≡ v
  size_of_int_neg v zero h = rw neg_zero (omega arith)
  size_of_int_neg v (suc n) h = rw neg_suc (omega arith)

  -- Counting a sample `n` times and then -`n` times leaves every bucket of a histogram with
  -- distinct buckets and 64-bit counts as it was.
  pub update_histogram_undo :
      (h : Lmap ℕ) (time : Timeval) (n j : ℕ)
      → IsLmap h
      → histogram_value h j < 2 ^ 64
      → histogram_value
          (update_histogram fl cfg (update_histogram fl cfg h time (pos n)) time (pos 0 -ℤ pos n))
          j
        ≡ histogram_value h j
  update_histogram_undo h time n j d b =
      rw
        (
          histogram_value-update_histogram (update_histogram fl cfg h time (pos n)) time
              (pos 0 -ℤ pos n) j (update_histogram-IsLmap h time (pos n) d),
          histogram_slot_neg time n,
          histogram_value-update_histogram h time (pos n) j d,
        )
        (elim (Bool-cases (is_slot (histogram_slot fl cfg time (pos n)) j)) [
          | inl e ↦ rw e (size_of_int_neg (histogram_value h j) n b)
          | inr e ↦ rw e refl
        ])
