-- ===== src/Report/Sums.antt =====
-- Totals of times and of counts, as the rows of src/pinba_update_report_tpl.h keep them.
use pinba_engine.Common.{
  Bool, Bool-cases, Option, arith, false, inl, inr, int_laws, nat_eq, negsuc, pos, refl, string_eq,
  true, ℕ, ℤ, ◌+ℤ◌, ◌+◌, ◌-ℤ◌, ◌-◌, ◌<◌, ◌^◌, ◌≡◌,
}
use pinba_engine.Time.{IsNormal, Timeval, micros, null_timeval, timeradd, timersub}
use pinba_engine.Time.Laws.{micros-timeradd, micros-timersub, timeradd-IsNormal, timersub-IsNormal}
use pinba_engine.Floats.{Floats}
use pinba_engine.Lmap.{IsLmap, Lmap}
use pinba_engine.Histogram.{HistogramConfig, histogram_slot, histogram_value, update_histogram}
use pinba_engine.Histogram.Counts.{
  histogram_slot_neg, histogram_value-update_histogram, is_slot, update_histogram-IsLmap,
}

-- A normal time of `s` microseconds.
pub record SumsTo (t : Timeval) (s : ℤ) : Type 0 where
  pub normal : IsNormal t
  pub length_is : micros t ≡ s

pub null-SumsTo : SumsTo null_timeval (pos 0)
unfolding micros
null-SumsTo = record { normal = omega arith; length_is = refl }

pub timeradd-SumsTo :
    (t r : Timeval) (s : ℤ) → SumsTo t s → IsNormal r → SumsTo (timeradd t r) (micros r +ℤ s)
timeradd-SumsTo t r s h n = record {
  normal = timeradd-IsNormal t r h.normal n;
  length_is = rw (micros-timeradd t r, h.length_is) (omega int_laws);
}

pub timersub-SumsTo :
    (t r : Timeval) (s : ℤ) → SumsTo t (micros r +ℤ s) → IsNormal r → SumsTo (timersub t r) s
timersub-SumsTo t r s h n = record {
  normal = timersub-IsNormal t r h.normal n;
  length_is = rw (micros-timersub t r, h.length_is) (omega int_laws);
}

abbrev pub hit : Bool → ℕ
hit true = 1
hit false = 0

-- A histogram that holds the given counts.
pub record Holds (h : Lmap ℕ) (counts : ℕ → ℕ) : Type 0 where
  pub is_map : IsLmap h
  pub count_is : (j : ℕ) → histogram_value h j ≡ counts j

module _ (fl : Floats) (cfg : HistogramConfig fl) where
  abbrev pub slot_of : Timeval → Option ℕ
  slot_of time = histogram_slot fl cfg time (pos 1)

  neg_one : pos 0 -ℤ pos 1 ≡ negsuc 0
  neg_one = omega int_laws

  pub add-Holds :
      (h : Lmap ℕ) (time : Timeval) (f : ℕ → ℕ)
      → ((j : ℕ) → f j < 2 ^ 64 - 1)
      → Holds h f
      → Holds (update_histogram fl cfg h time (pos 1)) (λ j. hit (is_slot (slot_of time) j) + f j)
  add-Holds h time f b k = record {
    is_map = update_histogram-IsLmap fl cfg h time (pos 1) k.is_map;
    count_is = λ j.
        rw (histogram_value-update_histogram fl cfg h time (pos 1) j k.is_map)
          (elim (Bool-cases (is_slot (slot_of time) j)) [
            | inl e ↦ rw (e, k.count_is j) (omega (arith, b j))
            | inr e ↦ rw (e, k.count_is j) (omega arith)
          ]);
  }

  pub remove-Holds :
      (h : Lmap ℕ) (time : Timeval) (f : ℕ → ℕ)
      → ((j : ℕ) → f j < 2 ^ 64 - 1)
      → Holds h (λ j. hit (is_slot (slot_of time) j) + f j)
      → Holds (update_histogram fl cfg h time (negsuc 0)) f
  remove-Holds h time f b k = record {
    is_map = update_histogram-IsLmap fl cfg h time (negsuc 0) k.is_map;
    count_is = λ j.
        rw
          (
            histogram_value-update_histogram fl cfg h time (negsuc 0) j k.is_map,
            ← neg_one,
            histogram_slot_neg fl cfg time 1,
          )
          (elim (Bool-cases (is_slot (slot_of time) j)) [
            | inl e ↦ rw (e, k.count_is j, e) (omega (arith, b j))
            | inr e ↦ rw (e, k.count_is j, e) (omega arith)
          ]);
  }
