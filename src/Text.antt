-- ===== src/Text.antt =====
-- The bounded string helpers of src/pinba.h, and the report keys that are built with them. A
-- buffer of `buf_size` bytes is the list of its bytes before the terminating NUL; `buf` is not
-- null. A C string comes with its length.
use pinba_engine.Common.{
  CString, [], append-nil, arith, if◌then◌else◌, leb, length, length-append, length-take, ltb, min,
  nat_eq, refl, reverse, string_eq, sub64, suc, take, take-length, zero, ℕ, ◌%◌, ◌++◌, ◌+◌, ◌-◌,
  ◌/◌, ◌<◌, ◌==◌, ◌^◌, ◌||◌, ◌∷◌, ◌≡◌,
}

unfoldable pub copy_truncated : ℕ → CString → CString
copy_truncated buf_size str =
    if buf_size == 0 then [] else take (min (length str) (sub64 buf_size 1)) str

-- The bytes of `buf` before `plus` are `buf`, so `plus` is its length.
unfoldable pub append_truncated : ℕ → CString → CString → CString
append_truncated buf_size buf str =
    let plus = length buf in
    let available = sub64 buf_size plus in
    if buf_size == 0 || leb buf_size plus
    then buf
    else if leb available 1
    then take (buf_size - 1) buf
    else buf ++ take (min (length str) (available - 1)) str

-- `(index_len < sizeof(index) - 1) ? index[index_len++] = c : 0`, on a zeroed buffer.
unfoldable pub append_delimiter : ℕ → CString → ℕ → CString
append_delimiter buf_size buf c = if ltb (length buf) (sub64 buf_size 1) then buf ++ c ∷ [] else buf

-- The digits of `sprintf("%u")`, the least significant first, with fuel for every digit.
unfoldable pub digits_from : ℕ → ℕ → CString
digits_from zero n = []
digits_from (suc fuel) n =
    let rest = digits_from fuel (n / 10) in if ltb n 10 then (48 + n) ∷ [] else (48 + n % 10) ∷ rest

unfoldable pub decimal : ℕ → CString
unfolding digits_from
decimal n = reverse (digits_from 20 n)

-- Text that fits is copied whole.
pub copy_truncated_fits : (n : ℕ) (s : CString) → length s < n → n < 2 ^ 64 → copy_truncated n s ≡ s
unfolding copy_truncated
copy_truncated_fits n s h b = ground (arith, take-length (min (length s) (sub64 n 1)) s)

pub append_truncated_fits :
    (n : ℕ) (b s : CString) → length b + length s < n → n < 2 ^ 64 → append_truncated n b s ≡ b ++ s
unfolding append_truncated
append_truncated_fits n b s h w = ground (
  arith,
  take-length (min (length s) (sub64 n (length b) - 1)) s,
  take-length (n - 1) b,
  length-zero s,
  append-nil b,
)
  where
    length-zero : (s : CString) → length s ≡ 0 → s ≡ []
    length-zero [] e = refl
    length-zero (x ∷ s) e = absurd (omega arith)

pub append_delimiter_fits :
    (n : ℕ) (b : CString) (c : ℕ)
    → length b + 1 < n
    → n < 2 ^ 64
    → append_delimiter n b c ≡ b ++ c ∷ []
unfolding append_delimiter
append_delimiter_fits n b c h w = ground arith

-- Nothing is ever written past the buffer: the text and its NUL fit.
pub length-copy_truncated :
    (n : ℕ) (s : CString) → 0 < n → n < 2 ^ 64 → length (copy_truncated n s) < n
unfolding copy_truncated
length-copy_truncated n s h b = ground (arith, length-take (min (length s) (sub64 n 1)) s)

-- Appending to a text that fits a buffer of at most 2^64 - 1 bytes gives a text that fits it, with
-- its NUL: nothing is written past the end.
pub length-append_truncated :
    (n : ℕ) (b s : CString) → length b < n → n < 2 ^ 64 → length (append_truncated n b s) < n
unfolding append_truncated
length-append_truncated n b s h w = ground (
  arith,
  length-take (n - 1) b,
  length-append b (take (min (length s) (sub64 n (length b) - 1)) s),
  length-take (min (length s) (sub64 n (length b) - 1)) s,
)

pub length-append_delimiter :
    (n : ℕ) (b : CString) (c : ℕ) → length b < n → n < 2 ^ 64 → length (append_delimiter n b c) < n
unfolding append_delimiter
length-append_delimiter n b c h w = ground (arith, length-append b (c ∷ []))
