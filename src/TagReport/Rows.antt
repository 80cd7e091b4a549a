-- ===== src/TagReport/Rows.antt =====
-- One row of a tag report of src/data.cc, and the requests with timers in its group.
use pinba_engine.Common.{
  All, Bool, Bool-cases, CString, List, Option, [], add64, arith, if◌then◌else◌, inl, inr, int_laws,
  length, nat_eq, none, pos, refl, some, string_eq, ℕ, ◌%◌, ◌++◌, ◌+ℤ◌, ◌+◌, ◌-ℤ◌, ◌<◌, ◌^◌, ◌∙◌,
  ◌∷◌, ◌≡◌, ◌≢◌,
}
use pinba_engine.Time.{IsNormal, Timeval, micros, null_timeval, timeradd}
use pinba_engine.Floats.{Floats}
use pinba_engine.Lmap.{IsLmap, Lmap, lmap_get}
use pinba_engine.Histogram.{
  HistogramConfig, histogram_slot, histogram_value, size_of_int, update_histogram,
}
use pinba_engine.Histogram.Counts.{
  histogram_slot_neg, histogram_value-update_histogram, is_slot, size_of_int_neg,
  update_histogram-IsLmap,
}
use pinba_engine.Report.Sums.{SumsTo, null-SumsTo, timeradd-SumsTo, timersub-SumsTo}
use pinba_engine.TagReport.Members.{
  IsTimerNormal, Member, all_timers, any_timer, sum_hits, sum_hits-append, total_time,
  total_time-append,
}
use pinba_engine.TagReport.{TagRow, Timer, add_usage, add_value, new_tag_row, subtract_timer}

abbrev pub last_id : ℕ → List Member → ℕ
last_id x [] = x
last_id x (m ∷ ms) = last_id m.0 ms

abbrev pub FirstIsNot : ℕ → List Member → Type 0
FirstIsNot id [] = Unit
FirstIsNot id (m ∷ ms) = m.0 ≢ id

pub last_id-snoc : (x : ℕ) (ms : List Member) (m : Member) → last_id x (ms ++ m ∷ []) ≡ m.0
last_id-snoc x [] m = refl
last_id-snoc x (n ∷ ms) m = last_id-snoc n.0 ms m

pub last_id-Unused :
    (x id : ℕ) (ms : List Member)
    → 0 < length ms
    → All (λ (m : Member). m.0 ≢ id) ms
    → last_id x ms ≢ id
last_id-Unused x id [] b u = absurd (omega arith)
last_id-Unused x id (m ∷ []) b u = u.0
last_id-Unused x id (m ∷ n ∷ ms) b u = last_id-Unused m.0 id (n ∷ ms) (omega arith) u.1

pub FirstIsNot-append :
    (id : ℕ) (ms ns : List Member) → 0 < length ms → FirstIsNot id ms → FirstIsNot id (ms ++ ns)
FirstIsNot-append id [] ns b h = absurd (omega arith)
FirstIsNot-append id (m ∷ ms) ns b h = h

pub FirstIsNot-last :
    (p id : ℕ) (ms : List Member) (us vs : List Timer)
    → FirstIsNot p (ms ++ (id, us) ∷ [])
    → FirstIsNot p (ms ++ (id, vs) ∷ [])
FirstIsNot-last p id [] us vs h = h
FirstIsNot-last p id (m ∷ ms) us vs h = h

module _ (fl : Floats) (cfg : HistogramConfig fl) where
  -- The timer is counted in the bucket.
  abbrev pub in_slot : ℕ → Timer → Bool
  in_slot j t = is_slot (histogram_slot fl cfg t.value (pos t.hit_count)) j

  -- The row has the hits, the times and the histogram of the timers.
  pub record Sums (ts : List Timer) (d : TagRow) : Type 0 where
    pub hits : d.hit_count ≡ sum_hits any_timer ts % 2 ^ 64
    pub value_sum : SumsTo d.timer_value (total_time (λ t. t.value) ts)
    pub utime_sum : SumsTo d.ru_utime_value (total_time (λ t. t.ru_utime) ts)
    pub stime_sum : SumsTo d.ru_stime_value (total_time (λ t. t.ru_stime) ts)
    pub is_map : IsLmap d.histogram_data
    pub buckets : (j : ℕ) → histogram_value d.histogram_data j ≡ sum_hits (in_slot j) ts % 2 ^ 64

  -- The row is that of the requests `ms`, of which there is at least one.
  pub record IsTagRow (ms : List Member) (d : TagRow) : Type 0 where
    pub counted : d.req_count ≡ length ms
    pub sums : Sums (all_timers ms) d
    pub last_added : d.prev_add_request_id ≡ last_id d.prev_add_request_id ms
    pub first_kept : FirstIsNot d.prev_del_request_id ms

  abbrev pub TagRowOk : List Member → Option TagRow → Type 0
  TagRowOk ms none = ms ≡ []
  TagRowOk ms (some d) = (0 < length ms) × IsTagRow ms d

  added_bucket :
      (h : Lmap ℕ) (t : Timer) (j s : ℕ)
      → IsLmap h
      → histogram_value h j ≡ s % 2 ^ 64
      → histogram_value (update_histogram fl cfg h t.value (pos t.hit_count)) j
        ≡ (s + (if in_slot j t then t.hit_count else 0)) % 2 ^ 64
  added_bucket h t j s d e =
      rw (histogram_value-update_histogram fl cfg h t.value (pos t.hit_count) j d)
        (elim (Bool-cases (in_slot j t)) [
          | inl c ↦ rw (c, e) (omega arith)
          | inr c ↦ rw (c, e) (omega arith)
        ])

  removed_bucket :
      (h : Lmap ℕ) (t : Timer) (j s : ℕ)
      → IsLmap h
      → histogram_value h j ≡ ((if in_slot j t then t.hit_count else 0) + s) % 2 ^ 64
      → histogram_value (update_histogram fl cfg h t.value (pos 0 -ℤ pos t.hit_count)) j
        ≡ s % 2 ^ 64
  removed_bucket h t j s d e =
      rw
        (
          histogram_value-update_histogram fl cfg h t.value (pos 0 -ℤ pos t.hit_count) j d,
          histogram_slot_neg fl cfg t.value t.hit_count,
        )
        (elim (Bool-cases (in_slot j t)) [
          | inl c ↦ rw c (
              let whole : histogram_value h j ≡ add64 (s % 2 ^ 64) (size_of_int (pos t.hit_count)) =
                rw c at e ∙ omega arith in
              rw whole (size_of_int_neg fl cfg (s % 2 ^ 64) t.hit_count (omega arith)))
          | inr c ↦ rw c (rw c at e ∙ omega arith)
        ])

  time_added :
      (f : Timer → Timeval) (ts : List Timer) (t : Timer) (x : Timeval)
      → SumsTo x (total_time f ts)
      → IsNormal (f t)
      → SumsTo (timeradd x (f t)) (total_time f (ts ++ t ∷ []))
  unfolding total_time
  time_added f ts t x h n =
      let whole : total_time f (ts ++ t ∷ []) ≡ micros (f t) +ℤ total_time f ts =
        total_time-append f ts (t ∷ []) ∙ unfold total_time in omega int_laws in
      rw whole (timeradd-SumsTo x (f t) _ h n)

  hits-snoc :
      (p : Timer → Bool) (ts : List Timer) (t : Timer)
      → sum_hits p (ts ++ t ∷ []) ≡ sum_hits p ts + (if p t then t.hit_count else 0)
  unfolding sum_hits
  hits-snoc p ts t = sum_hits-append p ts (t ∷ []) ∙ omega arith

  pub add-Sums :
      (ts : List Timer) (d : TagRow) (t : Timer)
      → Sums ts d
      → IsTimerNormal t
      → Sums (ts ++ t ∷ []) (add_usage fl cfg t (add_value fl cfg t d))
  unfolding add_usage add_value
  add-Sums ts d t v n = record {
    hits = rw (hits-snoc any_timer ts t) (omega (arith, v.hits));
    value_sum = time_added (λ t. t.value) ts t d.timer_value v.value_sum n.value_normal;
    utime_sum = time_added (λ t. t.ru_utime) ts t d.ru_utime_value v.utime_sum n.utime_normal;
    stime_sum = time_added (λ t. t.ru_stime) ts t d.ru_stime_value v.stime_sum n.stime_normal;
    is_map = update_histogram-IsLmap fl cfg d.histogram_data t.value _ v.is_map;
    buckets = λ j.
        rw (hits-snoc (in_slot j) ts t)
          (added_bucket d.histogram_data t j (sum_hits (in_slot j) ts) v.is_map (v.buckets j));
  }

  -- The sums of the first timer: it enters a new row with its value already there.
  pub new-Sums :
      (id : ℕ) (labels : List CString) (t : Timer)
      → IsTimerNormal t
      → Sums (t ∷ []) (add_usage fl cfg t (new_tag_row fl cfg id labels t))
  unfolding add_usage new_tag_row total_time sum_hits histogram_value lmap_get
  new-Sums id labels t n = record {
    hits = omega arith;
    value_sum = record { normal = n.value_normal; length_is = omega int_laws };
    utime_sum = timeradd-SumsTo null_timeval t.ru_utime _ null-SumsTo n.utime_normal;
    stime_sum = timeradd-SumsTo null_timeval t.ru_stime _ null-SumsTo n.stime_normal;
    is_map = update_histogram-IsLmap fl cfg none t.value _ tt;
    buckets = λ j. added_bucket none t j 0 tt refl ∙ omega arith;
  }

  pub subtract-Sums :
      (ts : List Timer) (d : TagRow) (t : Timer)
      → Sums (t ∷ ts) d
      → IsTimerNormal t
      → Sums ts (subtract_timer fl cfg t d)
  unfolding subtract_timer total_time sum_hits
  subtract-Sums ts d t v n = record {
    hits = omega (arith, v.hits);
    value_sum = timersub-SumsTo d.timer_value t.value _ v.value_sum n.value_normal;
    utime_sum = timersub-SumsTo d.ru_utime_value t.ru_utime _ v.utime_sum n.utime_normal;
    stime_sum = timersub-SumsTo d.ru_stime_value t.ru_stime _ v.stime_sum n.stime_normal;
    is_map = update_histogram-IsLmap fl cfg d.histogram_data t.value _ v.is_map;
    buckets =
        λ j. removed_bucket d.histogram_data t j (sum_hits (in_slot j) ts) v.is_map (v.buckets j);
  }

  -- What a row counts and remembers of requests does not matter to its sums.
  pub recount-Sums :
      (ts : List Timer) (d : TagRow) (n p q : ℕ)
      → Sums ts d
      → Sums ts (record d { req_count = n; prev_add_request_id = p; prev_del_request_id = q })
  recount-Sums ts d n p q v = record {
    hits = v.hits;
    value_sum = v.value_sum;
    utime_sum = v.utime_sum;
    stime_sum = v.stime_sum;
    is_map = v.is_map;
    buckets = v.buckets;
  }
