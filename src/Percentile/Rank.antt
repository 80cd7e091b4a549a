-- ===== src/Percentile/Rank.antt =====
-- The rank of a percentile of src/pinba_percentile.h is the exact ceiling.
use pinba_engine.Common.{
  Bool-cases, CString, Option-cases, [], ap, arith, false, inl, inr, nat_eq, not, refl, some,
  string_eq, subst, suc, true, ℕ, ◌%◌, ◌&&◌, ◌*◌, ◌+◌, ◌-◌, ◌/◌, ◌<◌, ◌==◌, ◌^◌, ◌∙◌, ◌∷◌, ◌≡◌, ◌≤◌,
}
use pinba_engine.Percentile.{
  Percentile, Scan, parse_fractional_percentile, percentile_rank, scan_digit, scan_text,
}
use native.Mathlib.Nat.{
  div-lt_iff_lt-mul, lt-div-mul-add, mod-eq_of_lt, mul-le-mul, mul-le-mul_left, pow-suc,
  pow-le-pow_right,
}

rank_covers : (a d : ℕ) → 0 < d → a ≤ (a + d - 1) / d * d
rank_covers a d h = omega (arith, lt-div-mul-add {a = a + d - 1} {b = d} h)

rank_least : (a d k : ℕ) → 0 < d → a ≤ k * d → (a + d - 1) / d ≤ k
rank_least a d k h e =
    let below : a + d - 1 < (k + 1) * d = grind arith in
    let l = (div-lt_iff_lt-mul {k = d} {x = a + d - 1} {y = k + 1} h).1 below in omega (arith, l)

-- With a percentile of at most 100 neither the 128-bit numbers nor the result wraps.
rank_exact :
    (count : ℕ) (p : Percentile)
    → count < 2 ^ 64
    → 0 < p.denominator
    → p.denominator < 2 ^ 64
    → p.numerator ≤ p.denominator
    → (count * p.numerator % 2 ^ 128 + p.denominator - 1) % 2 ^ 128 / p.denominator % 2 ^ 64
      ≡ (count * p.numerator + p.denominator - 1) / p.denominator
rank_exact count p c h w e =
    let a = count * p.numerator in
    let most : count ≤ 18446744073709551615 = omega arith in
    let most' : p.numerator ≤ 18446744073709551615 = omega arith in
    let bound : a ≤ 18446744073709551615 * 18446744073709551615 = mul-le-mul most most' in
    let product : a % 2 ^ 128 ≡ a = mod-eq_of_lt (omega (arith, bound)) in
    let sum : (a + p.denominator - 1) % 2 ^ 128 ≡ a + p.denominator - 1 =
      mod-eq_of_lt (omega (arith, bound)) in
    let covered : a ≤ count * p.denominator = mul-le-mul_left count e in
    let small : (a + p.denominator - 1) / p.denominator ≤ count =
      rank_least a p.denominator count h covered in
    rw (product, sum) (mod-eq_of_lt (omega (arith, small)))

-- For a 64-bit count and a percentile of at most 100, as a fraction of 64-bit numbers,
-- `pinba_percentile_rank` is the least rank that covers the percentile: `rank` items are at least
-- `numerator / denominator` of `count`, and no smaller number is; and the rank is at most `count`.
pub percentile_rank_lem :
    (count : ℕ) (p : Percentile)
    → count < 2 ^ 64
    → 0 < p.denominator
    → p.denominator < 2 ^ 64
    → p.numerator ≤ p.denominator
    → (count * p.numerator ≤ percentile_rank count p * p.denominator)
      × ((k : ℕ) → count * p.numerator ≤ k * p.denominator → percentile_rank count p ≤ k)
      × (percentile_rank count p ≤ count)
unfolding percentile_rank
percentile_rank_lem count p c h w e = elim (Bool-cases (count == 0)) [
  | inl empty ↦ rw empty (grind arith, λ k e. omega arith, omega arith)
  | inr some_items ↦
      rw (some_items, rank_exact count p c h w e)
        (
          rank_covers (count * p.numerator) p.denominator h,
          λ k e. rank_least (count * p.numerator) p.denominator k h e,
          rank_least (count * p.numerator) p.denominator count h (grind arith),
        )
]

-- What the loop keeps.
record IsScan (s : Scan) : Type 0 where
  pub at_most_100 : s.number ≤ 100 * s.scale
  pub scaled : s.scale ≡ 10 ^ s.decimals
  pub few : s.decimals ≤ 9

scan_digit-IsScan : (c : ℕ) (s s' : Scan) → IsScan s → scan_digit c s ≡ some s' → IsScan s'
unfolding scan_digit
scan_digit-IsScan c s s' v e =
    let step : 10 ^ (s.decimals + 1) ≡ 10 ^ s.decimals * 10 =
      ap (λ n. 10 ^ n) {x = s.decimals + 1} {y = suc s.decimals} (omega arith)
      ∙ pow-suc 10 s.decimals in
    record {
      at_most_100 = ground arith;
      scaled = ground (arith, step, v.scaled);
      few = ground (arith, v.few);
    }

some-injective : {s s' : Scan} → some s ≡ some s' → s ≡ s'
some-injective e = cc

scan_text-IsScan :
    (text : CString) (s s' : Scan) → IsScan s → scan_text text s ≡ some s' → IsScan s'
unfolding scan_text
scan_text-IsScan [] s s' v e = subst IsScan (some-injective e) v
scan_text-IsScan (c ∷ text) s s' v e = elim (Bool-cases (c == 46 && not s.dot)) [
  | inl point ↦
      scan_text-IsScan text (record s { dot = true }) s'
        (record { at_most_100 = v.at_most_100; scaled = v.scaled; few = v.few }) (ground arith)
  | inr digit ↦ elim (Option-cases (scan_digit c s)) [
    | inl e' ↦ absurd (ground arith)
    | inr (s1, e') ↦
        scan_text-IsScan text s1 s' (scan_digit-IsScan c s s1 v e') (rw (digit, e') at e)
  ]
]

-- A text that `pinba_parse_fractional_percentile` accepts is a fraction above 0% and of at most
-- 100%, with a denominator of at most 10^11.
pub parse_fractional_percentile_lem :
    (text : CString) (p : Percentile)
    → parse_fractional_percentile text ≡ some p
    → (0 < p.numerator) × (p.numerator ≤ p.denominator) × (p.denominator ≤ 100000000000)
unfolding parse_fractional_percentile
parse_fractional_percentile_lem [] p e = absurd (ground arith)
parse_fractional_percentile_lem (c ∷ text) p e =
    let first : Scan = record { number = 0; scale = 1; decimals = 0; dot = false } in
    elim (Option-cases (scan_text (c ∷ text) first)) [
      | inl rejected ↦ absurd (ground arith)
      | inr (s, accepted) ↦
          let v =
            scan_text-IsScan (c ∷ text) first s
              (record { at_most_100 = omega arith; scaled = refl; few = omega arith }) accepted in
          let small : 10 ^ s.decimals ≤ 10 ^ 9 = pow-le-pow_right {n = 10} (omega arith) v.few in
          ground (arith, v.at_most_100, v.scaled, small)
    ]
