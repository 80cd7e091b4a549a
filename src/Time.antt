-- ===== src/Time.antt =====
-- `pinba_timeval` (src/pinba_types.h) and the macros that compute with it (src/pinba.h).
-- `tv_sec` and `tv_usec` are 64-bit signed integers; their range is taken as unbounded.
pub mod Laws
use pinba_engine.Common.{
  ℕ, ◌+◌, ◌*◌, Bool, ℤ, pos, ◌+ℤ◌, ◌-ℤ◌, ◌≤ℤ◌, ◌<ℤ◌, ltb_ℤ, leb_ℤ, eqb_ℤ, pos_part, neg_part, sub_ℕ,
  if◌then◌else◌,
}

pub record Timeval : Type 0 where
  pub tv_sec : ℤ
  pub tv_usec : ℤ

abbrev pub null_timeval : Timeval
null_timeval = record { tv_sec = pos 0; tv_usec = pos 0 }

-- `pinba_timeradd` and `pinba_timersub` carry between the two fields.
unfoldable pub timeradd : Timeval → Timeval → Timeval
timeradd a b =
    let sec = a.tv_sec +ℤ b.tv_sec in
    let usec = a.tv_usec +ℤ b.tv_usec in
    if leb_ℤ (pos 1000000) usec
    then record { tv_sec = sec +ℤ pos 1; tv_usec = usec -ℤ pos 1000000 }
    else record { tv_sec = sec; tv_usec = usec }

unfoldable pub timersub : Timeval → Timeval → Timeval
timersub a b =
    let sec = a.tv_sec -ℤ b.tv_sec in
    let usec = a.tv_usec -ℤ b.tv_usec in
    if ltb_ℤ usec (pos 0)
    then record { tv_sec = sec -ℤ pos 1; tv_usec = usec +ℤ pos 1000000 }
    else record { tv_sec = sec; tv_usec = usec }

-- `pinba_timercmp(a, b, CMP)`, with the comparison as an argument.
unfoldable pub timercmp : (ℤ → ℤ → Bool) → Timeval → Timeval → Bool
timercmp cmp a b =
    if eqb_ℤ a.tv_sec b.tv_sec then cmp a.tv_usec b.tv_usec else cmp a.tv_sec b.tv_sec

-- The microseconds of a normal value lie below a second.
pub record IsNormal (t : Timeval) : Type 0 where
  pub nonneg : pos 0 ≤ℤ t.tv_usec
  pub below : t.tv_usec <ℤ pos 1000000

-- The length in microseconds.
unfoldable pub micros : Timeval → ℤ
micros t =
    sub_ℕ (pos_part t.tv_sec * 1000000 + pos_part t.tv_usec)
      (neg_part t.tv_sec * 1000000 + neg_part t.tv_usec)
