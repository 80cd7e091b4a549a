-- ===== src/Tests/Basics.antt =====
-- Times, texts, histograms and percentiles.
use pinba_engine.Common.{
  CString, [], add64, arith, find, if◌then◌else◌, length, nat_eq, pos, refl, some, string_eq, ℕ,
  ◌*◌, ◌+ℤ◌, ◌-ℤ◌, ◌<◌, ◌∷◌, ◌≡◌, ◌≤◌,
}
use pinba_engine.Time.{IsNormal, Timeval, micros, timeradd, timersub}
use pinba_engine.Time.Laws.{timersub-timeradd}
use pinba_engine.Floats.{whole_numbers}
use pinba_engine.Lmap.{IsLmap, Lmap, lmap_get}
use pinba_engine.Map.{}
use pinba_engine.Text.{append_truncated, length-append_truncated}
use pinba_engine.Histogram.{
  HistogramConfig, histogram_slot, histogram_value, size_of_int, update_histogram,
}
use pinba_engine.Histogram.Counts.{histogram_value-update_histogram, is_slot, update_histogram_undo}
use pinba_engine.Percentile.{Percentile, parse_fractional_percentile, percentile_rank}
use pinba_engine.Percentile.Rank.{parse_fractional_percentile_lem, percentile_rank_lem}

abbrev half : Timeval
half = record { tv_sec = pos 1; tv_usec = pos 500000 }

abbrev most : Timeval
most = record { tv_sec = pos 2; tv_usec = pos 700000 }

half-IsNormal : IsNormal half
half-IsNormal = record { nonneg = omega arith; below = omega arith }

most-IsNormal : IsNormal most
most-IsNormal = record { nonneg = omega arith; below = omega arith }

timersub-timeradd_example :
    IsNormal (timeradd half most)
    × (micros (timeradd half most) ≡ micros half +ℤ micros most)
    × (timersub (timeradd half most) most ≡ half)
timersub-timeradd_example = timersub-timeradd half most half-IsNormal most-IsNormal

-- A name that is cut.
length-append_truncated_example :
    length (append_truncated 4 (b'a' ∷ b'/' ∷ []) (b'b' ∷ b'c' ∷ [])) < 4
length-append_truncated_example =
    length-append_truncated 4 (b'a' ∷ b'/' ∷ []) (b'b' ∷ b'c' ∷ []) (omega arith) (omega arith)

abbrev buckets : HistogramConfig whole_numbers
buckets = record { histogram_max_time = pos 60; histogram_segment = pos 1; histogram_size = 512 }

abbrev counts : Lmap ℕ
counts = some ((1, 4) ∷ [])

counts-IsLmap : IsLmap counts
unfolding find
counts-IsLmap = (refl, tt)

histogram_value-update_histogram_example :
    histogram_value (update_histogram whole_numbers buckets counts half (pos 2)) 1 ≡ (
      if is_slot (histogram_slot whole_numbers buckets half (pos 2)) 1
      then add64 (histogram_value counts 1) (size_of_int (pos 2))
      else histogram_value counts 1)
histogram_value-update_histogram_example =
    histogram_value-update_histogram whole_numbers buckets counts half (pos 2) 1 counts-IsLmap

update_histogram_undo_example :
    histogram_value
      (update_histogram whole_numbers buckets
        (update_histogram whole_numbers buckets counts half (pos 2))
        half
        (pos 0 -ℤ pos 2))
      1
    ≡ histogram_value counts 1
unfolding histogram_value lmap_get find
update_histogram_undo_example =
    update_histogram_undo whole_numbers buckets counts half 2 1 counts-IsLmap (omega arith)

-- 99.99% of 10000.
abbrev most_of_all : Percentile
most_of_all = record { numerator = 9999; denominator = 10000 }

percentile_rank_lem_example :
    (10000 * 9999 ≤ percentile_rank 10000 most_of_all * 10000)
    × ((k : ℕ) → 10000 * 9999 ≤ k * 10000 → percentile_rank 10000 most_of_all ≤ k)
    × (percentile_rank 10000 most_of_all ≤ 10000)
percentile_rank_lem_example =
    percentile_rank_lem 10000 most_of_all (omega arith) (omega arith) (omega arith) (omega arith)

rank_of_most : percentile_rank 10000 most_of_all ≡ 9999
unfolding percentile_rank
rank_of_most = refl

abbrev text : CString
text = b'9' ∷ b'9' ∷ b'.' ∷ b'9' ∷ b'9' ∷ []

parse_fractional_percentile_lem_example :
    (0 < most_of_all.numerator)
    × (most_of_all.numerator ≤ most_of_all.denominator)
    × (most_of_all.denominator ≤ 100000000000)
unfolding parse_fractional_percentile
parse_fractional_percentile_lem_example = parse_fractional_percentile_lem text most_of_all refl
