-- ===== src/Conditions.antt =====
-- `CHECK_REPORT_CONDITIONS_CONTINUE` of src/pinba.h: which records a report takes.
pub mod Tags
use pinba_engine.Common.{
  Bool, List, [], false, if◌then◌else◌, length, nat_eq, pos, string_eq, true, ℕ, ◌%◌, ◌&&◌, ◌+◌,
  ◌/◌, ◌==◌, ◌∷◌,
}
use pinba_engine.Time.{Timeval}
use pinba_engine.Floats.{Floats, timeval_to_float}
use pinba_engine.Record.{StatsRecord}

-- `pinba_conditions`; `tags` pairs the names with the values, which are dictionary words.
pub record Conditions (fl : Floats) : Type 0 where
  pub min_time : fl.Double
  pub max_time : fl.Double
  pub cond_tags : List (ℕ × ℕ)

-- The bits of `pinba_report_flag`.
abbrev pub report_conditional : ℕ
report_conditional = 2

abbrev pub report_tagged : ℕ
report_tagged = 4

unfoldable pub has_flag : ℕ → ℕ → Bool
has_flag flags bit = (flags / bit) % 2 == 1

-- The inner loop, for one required tag. `true`: a wrong value was found, and the search ends.
unfoldable pub scan_record : ℕ × ℕ → List (ℕ × ℕ) → ℕ → Bool × ℕ
scan_record (name, value) [] found_tags = (false, found_tags)
scan_record (name, value) ((n, v) ∷ tags) found_tags =
    let rest = scan_record (name, value) tags (if name == n then found_tags + 1 else found_tags) in
    if name == n then (if value == v then rest else (true, found_tags)) else rest

unfoldable pub count_tags : List (ℕ × ℕ) → List (ℕ × ℕ) → ℕ → ℕ
unfolding scan_record
count_tags [] tags found_tags = found_tags
count_tags (c ∷ required) tags found_tags =
    let (wrong, found) = scan_record c tags found_tags in
    let rest = count_tags required tags found in if wrong then found else rest

unfoldable pub tags_match : List (ℕ × ℕ) → List (ℕ × ℕ) → Bool
unfolding count_tags
tags_match required tags =
    if length tags == 0 then false else count_tags required tags 0 == length required

module _ (fl : Floats) where
  open fl use {Double, of_int, lt}

  unfoldable pub time_matches : Conditions fl → Timeval → Bool
  time_matches cond req_time =
      let time = timeval_to_float fl req_time in
      if lt (of_int (pos 0)) cond.min_time && lt time cond.min_time
      then false
      else if lt (of_int (pos 0)) cond.max_time && lt cond.max_time time
      then false
      else true

  unfoldable pub conditions_hold : ℕ → Conditions fl → StatsRecord fl → Bool
  unfolding has_flag time_matches tags_match
  conditions_hold flags cond r =
      (if has_flag flags report_conditional then time_matches cond r.req_time else true)
      && (if has_flag flags report_tagged then tags_match cond.cond_tags r.tags else true)
