-- ===== src/Request.antt =====
-- src/pinba_request_validation.h: the checks on a decoded packet before anything is stored.
-- `Pinba__Request` comes from the Protobuf decoder, which is a library: an array and its `n_` field
-- are a list and its length, and of the dictionary only the number of its entries matters here.
pub mod Valid
use pinba_engine.Common.{
  Bool, List, false, if◌then◌else◌, leb, length, ltb, nat_eq, not, string_eq, true, ℕ, ◌&&◌, ◌+◌,
  ◌-◌, ◌==◌, ◌||◌, ◌∷◌,
}

pub record Request : Type 0 where
  pub n_dictionary : ℕ
  pub timer_hit_count : List ℕ
  pub n_timer_value : ℕ
  pub timer_tag_count : List ℕ
  pub timer_tag_name : List ℕ
  pub timer_tag_value : List ℕ
  pub tag_name : List ℕ
  pub tag_value : List ℕ

pub data RequestError : Type 0 where
  no_error timer_arrays flattened_tags dictionary_index representation_limit : RequestError

abbrev pub ushrt_max : ℕ
ushrt_max = 65535

abbrev pub uint_max : ℕ
uint_max = 4294967295

abbrev pub int_max : ℕ
int_max = 2147483647

abbrev stored : ℕ → ℕ → ℕ
stored hits tags = if hits == 0 then 0 else if tags == 0 then 0 else 1

unfoldable pub count_stored : List ℕ → List ℕ → ℕ
count_stored (h ∷ hits) (c ∷ counts) = stored h c + count_stored hits counts
count_stored _ _ = 0

unfoldable pub stored_timer_count : Request → ℕ
unfolding count_stored
stored_timer_count r = count_stored r.timer_hit_count r.timer_tag_count

-- The loop over the timers, with the number `n` of flattened tags. The last field is `total`, which
-- never exceeds `n`, so that `n - total` does not wrap.
unfoldable pub check_timers : ℕ → List ℕ → List ℕ → ℕ → RequestError × ℕ
check_timers n (h ∷ hits) (tags ∷ counts) total =
    let rest = check_timers n hits counts (total + tags) in
    if ltb ushrt_max tags || ltb int_max h
    then (representation_limit, total)
    else if ltb (n - total) tags
    then (flattened_tags, total)
    else rest
check_timers n _ _ total = (no_error, total)

-- The loops over pairs of dictionary indices.
unfoldable pub indices_ok : ℕ → List ℕ → List ℕ → Bool
indices_ok n (x ∷ xs) (y ∷ ys) = if leb n x || leb n y then false else indices_ok n xs ys
indices_ok n _ _ = true

unfoldable pub check_indices : Request → RequestError
unfolding indices_ok
check_indices r =
    if not (indices_ok r.n_dictionary r.timer_tag_name r.timer_tag_value)
    then dictionary_index
    else if not (indices_ok r.n_dictionary r.tag_name r.tag_value)
    then dictionary_index
    else no_error

unfoldable pub check_total : Request → RequestError × ℕ → RequestError
unfolding check_indices
check_total r (no_error, total) =
    if not (total == length r.timer_tag_name) then flattened_tags else check_indices r
check_total r (error, total) = error

unfoldable pub validate_request : Request → RequestError
unfolding check_timers check_total
validate_request r =
    let timers = length r.timer_hit_count in
    if not (timers == r.n_timer_value)
      || not (timers == length r.timer_tag_count)
      || not (length r.tag_name == length r.tag_value)
    then timer_arrays
    else if ltb ushrt_max timers || ltb uint_max (length r.tag_name)
    then representation_limit
    else if not (length r.timer_tag_name == length r.timer_tag_value)
    then flattened_tags
    else if r.n_dictionary == 0 && (not (timers == 0) || not (length r.tag_name == 0))
    then dictionary_index
    else check_total r
        (check_timers (length r.timer_tag_name) r.timer_hit_count r.timer_tag_count 0)
