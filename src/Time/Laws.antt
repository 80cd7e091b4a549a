-- ===== src/Time/Laws.antt =====
-- The arithmetic of src/pinba.h keeps values normal, and is the arithmetic of microseconds.
use pinba_engine.Common.{
  +ℤ_parts, -ℤ_parts, ap, arith, eq_of_parts, int_laws, ltb_ℤ, nat_eq, neg_part, pos, pos_part,
  string_eq, true, ◌*◌, ◌+ℤ◌, ◌+◌, ◌-ℤ◌, ◌<ℤ◌, ◌↔◌, ◌≡◌,
}
use pinba_engine.Time.{IsNormal, Timeval, micros, timeradd, timercmp, timersub}

pub micros_parts :
    (t : Timeval)
    → pos_part (micros t) + neg_part t.tv_sec * 1000000 + neg_part t.tv_usec
      ≡ neg_part (micros t) + pos_part t.tv_sec * 1000000 + pos_part t.tv_usec
unfolding micros
micros_parts t = ground arith

-- `pinba_timeradd` adds the lengths in microseconds.
pub micros-timeradd : (a b : Timeval) → micros (timeradd a b) ≡ micros a +ℤ micros b
unfolding timeradd
micros-timeradd a b = ground (
  arith,
  micros_parts a,
  micros_parts b,
  micros_parts (timeradd a b),
  +ℤ_parts a.tv_sec b.tv_sec,
  +ℤ_parts a.tv_usec b.tv_usec,
  +ℤ_parts (micros a) (micros b),
  +ℤ_parts (a.tv_sec +ℤ b.tv_sec) (pos 1),
  -ℤ_parts (a.tv_usec +ℤ b.tv_usec) (pos 1000000),
  eq_of_parts (micros (timeradd a b)) (micros a +ℤ micros b),
)

pub micros-timersub : (a b : Timeval) → micros (timersub a b) ≡ micros a -ℤ micros b
unfolding timersub
micros-timersub a b = ground (
  arith,
  micros_parts a,
  micros_parts b,
  micros_parts (timersub a b),
  -ℤ_parts a.tv_sec b.tv_sec,
  -ℤ_parts a.tv_usec b.tv_usec,
  -ℤ_parts (micros a) (micros b),
  -ℤ_parts (a.tv_sec -ℤ b.tv_sec) (pos 1),
  +ℤ_parts (a.tv_usec -ℤ b.tv_usec) (pos 1000000),
  eq_of_parts (micros (timersub a b)) (micros a -ℤ micros b),
)

-- Both keep the microseconds of normal values below a second.
pub timeradd-IsNormal : (a b : Timeval) → IsNormal a → IsNormal b → IsNormal (timeradd a b)
unfolding timeradd
timeradd-IsNormal a b v w =
    ground (arith, +ℤ_parts a.tv_usec b.tv_usec, -ℤ_parts (a.tv_usec +ℤ b.tv_usec) (pos 1000000))

pub timersub-IsNormal : (a b : Timeval) → IsNormal a → IsNormal b → IsNormal (timersub a b)
unfolding timersub
timersub-IsNormal a b v w =
    ground (arith, -ℤ_parts a.tv_usec b.tv_usec, +ℤ_parts (a.tv_usec -ℤ b.tv_usec) (pos 1000000))

-- A normal value is known by its length.
pub micros-injective : (a b : Timeval) → IsNormal a → IsNormal b → micros a ≡ micros b → a ≡ b
micros-injective a b v w e = ground (
  arith,
  micros_parts a,
  micros_parts b,
  eq_of_parts a.tv_sec b.tv_sec,
  eq_of_parts a.tv_usec b.tv_usec,
  ap pos_part e,
  ap neg_part e,
)

-- `pinba_timeradd` of normal values carries: its microseconds are below a second again, and its
-- length is the sum of the lengths. `pinba_timersub` takes what was added away again.
pub timersub-timeradd :
    (a b : Timeval)
    → IsNormal a
    → IsNormal b
    → IsNormal (timeradd a b)
      × (micros (timeradd a b) ≡ micros a +ℤ micros b)
      × (timersub (timeradd a b) b ≡ a)
timersub-timeradd a b v w = (
  timeradd-IsNormal a b v w,
  micros-timeradd a b,
  micros-injective (timersub (timeradd a b) b) a
      (timersub-IsNormal (timeradd a b) b (timeradd-IsNormal a b v w) w) v
      (rw (micros-timersub, micros-timeradd) (omega int_laws)),
)

-- On normal values `pinba_timercmp` with < compares the lengths in microseconds.
pub timercmp-lt :
    (a b : Timeval) → IsNormal a → IsNormal b → (timercmp ltb_ℤ a b ≡ true) ↔ (micros a <ℤ micros b)
unfolding timercmp
timercmp-lt a b v w = ground (arith, micros_parts a, micros_parts b)
