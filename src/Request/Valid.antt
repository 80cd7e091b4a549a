-- ===== src/Request/Valid.antt =====
-- `pinba_validate_request` accepts exactly the well-formed requests.
use pinba_engine.Common.{
  All, List, [], arith, length, nat_eq, refl, string_eq, true, ℕ, ◌+◌, ◌<◌, ◌↔◌, ◌∷◌, ◌≡◌, ◌≤◌,
}
use pinba_engine.Request.{
  Request, RequestError, check_indices, check_timers, check_total, dictionary_index, flattened_tags,
  indices_ok, int_max, no_error, representation_limit, timer_arrays, uint_max, ushrt_max,
  validate_request,
}

unfoldable pub sum : List ℕ → ℕ
sum [] = 0
sum (x ∷ xs) = x + sum xs

abbrev pub Below : ℕ → List ℕ → Type 0
Below n xs = All (λ x. x < n) xs

abbrev pub AtMost : ℕ → List ℕ → Type 0
AtMost n xs = All (λ x. x ≤ n) xs

-- What the code after the validation relies on.
pub record IsWellFormed (r : Request) : Type 0 where
  pub values_match : length r.timer_hit_count ≡ r.n_timer_value
  pub counts_match : length r.timer_hit_count ≡ length r.timer_tag_count
  pub tags_paired : length r.tag_name ≡ length r.tag_value
  pub timer_tags_paired : length r.timer_tag_name ≡ length r.timer_tag_value
  pub timers_fit : length r.timer_hit_count ≤ ushrt_max
  pub tags_fit : length r.tag_name ≤ uint_max
  pub counts_fit : AtMost ushrt_max r.timer_tag_count
  pub hits_fit : AtMost int_max r.timer_hit_count
  pub counts_total : sum r.timer_tag_count ≡ length r.timer_tag_name
  pub timer_names_in : Below r.n_dictionary r.timer_tag_name
  pub timer_values_in : Below r.n_dictionary r.timer_tag_value
  pub names_in : Below r.n_dictionary r.tag_name
  pub values_in : Below r.n_dictionary r.tag_value
  pub dictionary_used :
      r.n_dictionary ≡ 0 → (length r.timer_hit_count ≡ 0) × (length r.tag_name ≡ 0)

indices_ok_iff :
    (n : ℕ) (xs ys : List ℕ)
    → length xs ≡ length ys
    → (indices_ok n xs ys ≡ true) ↔ (Below n xs × Below n ys)
unfolding indices_ok
indices_ok_iff n [] [] e = (λ _. (tt, tt), λ _. refl)
indices_ok_iff n [] (y ∷ ys) e = absurd (omega arith)
indices_ok_iff n (x ∷ xs) [] e = absurd (omega arith)
indices_ok_iff n (x ∷ xs) (y ∷ ys) e =
    let ih = indices_ok_iff n xs ys (omega arith) in
    (
      λ h. let rest = ih.0 (ground arith) in ((ground arith, rest.0), (ground arith, rest.1)),
      λ h. ground (arith, ih.1 (h.0.1, h.1.1)),
    )

check_timers_sound :
    (n : ℕ) (hits counts : List ℕ) (total final : ℕ)
    → length hits ≡ length counts
    → total ≤ n
    → check_timers n hits counts total ≡ (no_error, final)
    → AtMost ushrt_max counts × AtMost int_max hits × (final ≡ total + sum counts)
unfolding check_timers sum
check_timers_sound n [] [] total final e b h = (tt, tt, ground arith)
check_timers_sound n [] (c ∷ counts) total final e b h = absurd (omega arith)
check_timers_sound n (x ∷ hits) [] total final e b h = absurd (omega arith)
check_timers_sound n (x ∷ hits) (c ∷ counts) total final e b h =
    let rest =
      check_timers_sound n hits counts (total + c) final (omega arith) (ground arith)
        (ground arith) in
    ((ground arith, rest.0), (ground arith, rest.1), omega (arith, rest.2))

check_timers_complete :
    (n : ℕ) (hits counts : List ℕ) (total : ℕ)
    → AtMost ushrt_max counts
    → AtMost int_max hits
    → total + sum counts ≤ n
    → length hits ≡ length counts
    → check_timers n hits counts total ≡ (no_error, total + sum counts)
unfolding check_timers sum
check_timers_complete n [] [] total c h b e = ground arith
check_timers_complete n [] (y ∷ counts) total c h b e = absurd (omega arith)
check_timers_complete n (x ∷ hits) [] total c h b e = absurd (omega arith)
check_timers_complete n (x ∷ hits) (y ∷ counts) total c h b e =
    ground
      (arith, check_timers_complete n hits counts (total + y) c.1 h.1 (omega arith) (omega arith))

check_indices_iff :
    (r : Request)
    → length r.timer_tag_name ≡ length r.timer_tag_value
    → length r.tag_name ≡ length r.tag_value
    → (check_indices r ≡ no_error) ↔ (
        (Below r.n_dictionary r.timer_tag_name × Below r.n_dictionary r.timer_tag_value)
        × (Below r.n_dictionary r.tag_name × Below r.n_dictionary r.tag_value))
unfolding check_indices
check_indices_iff r e e' =
    let timer_tags = indices_ok_iff r.n_dictionary r.timer_tag_name r.timer_tag_value e in
    let tags = indices_ok_iff r.n_dictionary r.tag_name r.tag_value e' in
    (
      λ h. (timer_tags.0 (ground arith), tags.0 (ground arith)),
      λ h. ground (arith, timer_tags.1 h.0, tags.1 h.1),
    )

-- An error of the loop is the result.
check_total_sound :
    (r : Request) (result : RequestError × ℕ)
    → check_total r result ≡ no_error
    → (result ≡ (no_error, length r.timer_tag_name)) × (check_indices r ≡ no_error)
unfolding check_total
check_total_sound r (no_error, total) h = (ground arith, ground arith)
check_total_sound r (timer_arrays, total) h = absurd (ground arith)
check_total_sound r (flattened_tags, total) h = absurd (ground arith)
check_total_sound r (dictionary_index, total) h = absurd (ground arith)
check_total_sound r (representation_limit, total) h = absurd (ground arith)

run_timers : Request → RequestError × ℕ
run_timers r = check_timers (length r.timer_tag_name) r.timer_hit_count r.timer_tag_count 0

validate_request_sound : (r : Request) → validate_request r ≡ no_error → IsWellFormed r
unfolding validate_request run_timers
validate_request_sound r h =
    let last : check_total r (run_timers r) ≡ no_error = ground arith in
    let ran = check_total_sound r (run_timers r) last in
    let counts =
      check_timers_sound (length r.timer_tag_name) r.timer_hit_count r.timer_tag_count 0
        (length r.timer_tag_name) (ground arith) (ground arith) ran.0 in
    let indices = (check_indices_iff r (ground arith) (ground arith)).0 ran.1 in
    record {
      values_match = ground arith;
      counts_match = ground arith;
      tags_paired = ground arith;
      timer_tags_paired = ground arith;
      timers_fit = ground arith;
      tags_fit = ground arith;
      counts_fit = counts.0;
      hits_fit = counts.1;
      counts_total = omega (arith, counts.2);
      timer_names_in = indices.0.0;
      timer_values_in = indices.0.1;
      names_in = indices.1.0;
      values_in = indices.1.1;
      dictionary_used = λ z. ground arith;
    }

validate_request_complete : (r : Request) → IsWellFormed r → validate_request r ≡ no_error
unfolding validate_request check_total
validate_request_complete r w =
    let run =
      check_timers_complete (length r.timer_tag_name) r.timer_hit_count r.timer_tag_count 0
        w.counts_fit w.hits_fit (omega (arith, w.counts_total)) w.counts_match in
    let indices =
      (check_indices_iff r w.timer_tags_paired w.tags_paired).1
        ((w.timer_names_in, w.timer_values_in), (w.names_in, w.values_in)) in
    ground (
      arith, run, indices, w.values_match, w.counts_match, w.tags_paired, w.timer_tags_paired,
      w.timers_fit, w.tags_fit, w.counts_total, w.dictionary_used,
    )

-- `pinba_validate_request` reports no error exactly for the requests that are well-formed: the
-- parallel arrays have one length, every count fits the type that stores it, the timers' tag counts
-- add up to the number of flattened tags, every index is below the size of the dictionary, and
-- with an empty dictionary there are neither timers nor tags.
pub validate_request_iff : (r : Request) → (validate_request r ≡ no_error) ↔ IsWellFormed r
validate_request_iff r = (validate_request_sound r, validate_request_complete r)
