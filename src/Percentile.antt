-- ===== src/Percentile.antt =====
-- src/pinba_percentile.h: percentiles in decimal notation, and their rank. The legacy rank, a
-- floating-point product, and `pinba_parse_histogram_max` are not modelled; the double beside the
-- fraction is left out.
pub mod Rank
use pinba_engine.Common.{
  Bool, CString, Option, [], false, if◌then◌else◌, ltb, nat_eq, none, not, some, string_eq, true, ℕ,
  ◌%◌, ◌&&◌, ◌*◌, ◌+◌, ◌-◌, ◌/◌, ◌==◌, ◌^◌, ◌||◌, ◌∷◌,
}

-- `pinba_percentile`, without `value`.
pub record Percentile : Type 0 where
  pub numerator : ℕ
  pub denominator : ℕ

-- The loop's state.
pub record Scan : Type 0 where
  pub number : ℕ
  pub scale : ℕ
  pub decimals : ℕ
  pub dot : Bool

-- A digit. `number` and `scale` stay small: an accepted one is at most 10^11.
unfoldable pub scan_digit : ℕ → Scan → Option Scan
scan_digit c s =
    let decimals = if s.dot then s.decimals + 1 else s.decimals in
    let scale = if s.dot then s.scale * 10 else s.scale in
    let number = s.number * 10 + (c - 48) in
    if ltb c 48 || ltb 57 c || ltb 9 decimals
    then none
    else if ltb (100 * scale) number
    then none
    else some (record { number = number; scale = scale; decimals = decimals; dot = s.dot })

unfoldable pub scan_text : CString → Scan → Option Scan
unfolding scan_digit
scan_text [] s = some s
scan_text (c ∷ text) s =
    if c == 46 && not s.dot
    then scan_text text (record s { dot = true })
    else elim (scan_digit c s) [ none ↦ none | some s' ↦ scan_text text s' ]

-- `text.back()`
unfoldable pub back : CString → ℕ
back [] = 0
back (c ∷ []) = c
back (c ∷ d ∷ text) = back (d ∷ text)

unfoldable pub parse_fractional_percentile : CString → Option Percentile
unfolding scan_text back
parse_fractional_percentile [] = none
parse_fractional_percentile (c ∷ text) =
    if ltb c 48 || ltb 57 c || back (c ∷ text) == 46
    then none
    else elim (scan_text (c ∷ text) (record { number = 0; scale = 1; decimals = 0; dot = false })) [
      | none ↦ none
      | some s ↦
          if s.number == 0
          then none
          else some (record { numerator = s.number; denominator = 100 * s.scale })
    ]

-- The exact rank, for a denominator that is not 0: a 128-bit product, and a 64-bit result.
unfoldable pub percentile_rank : ℕ → Percentile → ℕ
percentile_rank count p =
    let product = count * p.numerator % 2 ^ 128 in
    if count == 0 then 0 else (product + p.denominator - 1) % 2 ^ 128 / p.denominator % 2 ^ 64
