-- ===== src/Floats.antt =====
-- Floating point, which the language model does not have: a type with the operations that the
-- engine uses, and no laws. `float` and `double` share it; `to_float` is the cast to `float`.
use pinba_engine.Common.{
  Bool, if◌then◌else◌, leb_ℤ, ltb_ℤ, nat_eq, pos, pos_part, string_eq, true, ℕ, ℤ, ◌&&◌, ◌+ℤ◌, ◌-ℤ◌,
  ◌/◌,
}
use pinba_engine.Time.{Timeval}

pub record Floats : Type 1 where
  pub Double : Type 0
  pub of_int : ℤ → Double
  pub to_float : Double → Double
  pub plus : Double → Double → Double
  pub minus : Double → Double → Double
  pub over : Double → Double → Double
  pub lt : Double → Double → Bool
  pub le : Double → Double → Bool
  pub isfinite : Double → Bool
  pub trunc : Double → ℕ

module _ (fl : Floats) where
  open fl use {Double, of_int, to_float, plus, over, le, isfinite}

  -- `timeval_to_float`
  unfoldable pub timeval_to_float : Timeval → Double
  timeval_to_float tv =
      plus (to_float (of_int tv.tv_sec))
        (over (to_float (of_int tv.tv_usec)) (of_int (pos 1000000)))

  -- `pinba_is_valid_time_seconds`, with INT_MAX written out.
  unfoldable pub is_valid_time_seconds : Double → Bool
  is_valid_time_seconds f = isfinite f && le (of_int (pos 0)) f && le f (of_int (pos 2147483647))

  unfoldable pub sanitize_time_seconds : Double → Double
  sanitize_time_seconds f = if is_valid_time_seconds f then f else of_int (pos 0)

  unfoldable pub should_track_histogram_sample : Double → Bool
  should_track_histogram_sample f = is_valid_time_seconds f

-- Whole numbers in place of floating point, for tests: times are in seconds.
abbrev pub whole_numbers : Floats
whole_numbers = record {
  Double = ℤ;
  of_int = λ n. n;
  to_float = λ n. n;
  plus = ◌+ℤ◌;
  minus = ◌-ℤ◌;
  over = λ a b. pos (pos_part a / pos_part b);
  lt = ltb_ℤ;
  le = leb_ℤ;
  isfinite = λ _. true;
  trunc = pos_part;
}
