-- ===== src/Conditions/Tags.antt =====
-- The tag search of src/pinba.h finds exactly the records that carry every required tag.
use pinba_engine.Common.{
  ==_iff, All, Bool, Bool-cases, Distinct, List, Option, Option-cases, [], ap, arith, false, find,
  if◌then◌else◌, inl, inr, length, nat_eq, none, refl, some, string_eq, sym, true, ℕ, ◌+◌, ◌==◌,
  ◌↔◌, ◌∙◌, ◌∷◌, ◌≡◌, ◌≢◌, ◌≤◌,
}
use pinba_engine.Conditions.{count_tags, scan_record, tags_match}

-- What the inner loop finds when no name stands twice.
abbrev verdict : ℕ → Option ℕ → ℕ → Bool × ℕ
verdict value none found = (false, found)
verdict value (some v) found = if value == v then (false, found + 1) else (true, found)

absent :
    (name value : ℕ) (tags : List (ℕ × ℕ)) (found : ℕ)
    → find name tags ≡ none
    → scan_record (name, value) tags found ≡ (false, found)
unfolding scan_record find
absent name value [] found h = refl
absent name value ((n, v) ∷ tags) found h = ground (arith, absent name value tags found)

scan_record_lem :
    (name value : ℕ) (tags : List (ℕ × ℕ)) (found : ℕ)
    → Distinct tags
    → scan_record (name, value) tags found ≡ verdict value (find name tags) found
unfolding scan_record find
scan_record_lem name value [] found d = refl
scan_record_lem name value ((n, v) ∷ tags) found d =
    ground (arith, absent name value tags (found + 1), scan_record_lem name value tags found d.1)

abbrev pub Carries : List (ℕ × ℕ) → ℕ × ℕ → Type 0
Carries tags c = find c.0 tags ≡ some c.1

-- One round of the outer loop, by what the record has under the name.
module _ (n v : ℕ) (required tags : List (ℕ × ℕ)) (found : ℕ) (d : Distinct tags) where
  count_tags-none :
      find n tags ≡ none
      → count_tags ((n, v) ∷ required) tags found ≡ count_tags required tags found
  unfolding count_tags
  count_tags-none h = rw (scan_record_lem n v tags found d, h) refl

  count_tags-hit :
      find n tags ≡ some v
      → count_tags ((n, v) ∷ required) tags found ≡ count_tags required tags (found + 1)
  unfolding count_tags
  count_tags-hit h = rw (scan_record_lem n v tags found d, h, (==_iff v v).1 refl) refl

  count_tags-wrong :
      (w : ℕ)
      → find n tags ≡ some w
      → (v == w) ≡ false
      → count_tags ((n, v) ∷ required) tags found ≡ found
  unfolding count_tags
  count_tags-wrong w h ne = rw (scan_record_lem n v tags found d, h, ne) refl

  -- The three cases.
  data Round : Type 0 where
    missing : find n tags ≡ none → Round
    right : find n tags ≡ some v → Round
    wrong : (w : ℕ) → find n tags ≡ some w → (v == w) ≡ false → Round

  round : Round
  round = elim (Option-cases (find n tags)) [
    | inl e ↦ missing e
    | inr (w, e) ↦ elim (Bool-cases (v == w)) [
      | inl same ↦ right (e ∙ ap some (sym ((==_iff v w).0 same)))
      | inr other ↦ wrong w e other
    ]
  ]

count_tags-le :
    (required tags : List (ℕ × ℕ)) (found : ℕ)
    → Distinct tags
    → count_tags required tags found ≤ found + length required
count_tags-le [] tags found d = unfold count_tags in omega arith
count_tags-le ((n, v) ∷ required) tags found d = elim (round n v required tags found d) [
  | missing e ↦
      rw (count_tags-none n v required tags found d e)
        (omega (arith, count_tags-le required tags found d))
  | right e ↦
      rw (count_tags-hit n v required tags found d e)
        (omega (arith, count_tags-le required tags (found + 1) d))
  | wrong w e ne ↦ rw (count_tags-wrong n v required tags found d w e ne) (omega arith)
]

count_tags_complete :
    (required tags : List (ℕ × ℕ)) (found : ℕ)
    → Distinct tags
    → All (Carries tags) required
    → count_tags required tags found ≡ found + length required
count_tags_complete [] tags found d h = unfold count_tags in omega arith
count_tags_complete ((n, v) ∷ required) tags found d h =
    rw (count_tags-hit n v required tags found d h.0)
      (omega (arith, count_tags_complete required tags (found + 1) d h.1))

count_tags_sound :
    (required tags : List (ℕ × ℕ)) (found : ℕ)
    → Distinct tags
    → count_tags required tags found ≡ found + length required
    → All (Carries tags) required
count_tags_sound [] tags found d h = tt
count_tags_sound ((n, v) ∷ required) tags found d h = elim (round n v required tags found d) [
  | missing e ↦ absurd (
      omega (
        arith,
        h,
        count_tags-none n v required tags found d e,
        count_tags-le required tags found d,
      ))
  | right e ↦ (
    e,
    count_tags_sound required tags (found + 1) d
        (omega (arith, h, count_tags-hit n v required tags found d e)),
  )
  | wrong w e ne ↦ absurd (omega (arith, h, count_tags-wrong n v required tags found d w e ne))
]

-- For a record with tags of which none stands twice, the tag condition of a report holds exactly
-- if the record carries each required tag with its value.
pub tags_match_iff :
    (required tags : List (ℕ × ℕ))
    → Distinct tags
    → tags ≢ []
    → (tags_match required tags ≡ true) ↔ All (Carries tags) required
unfolding tags_match
tags_match_iff required [] d ne = absurd (ne refl)
tags_match_iff required (t ∷ tags) d ne = (
  λ h. count_tags_sound required (t ∷ tags) 0 d (ground arith),
  λ h. ground (arith, count_tags_complete required (t ∷ tags) 0 d h),
)
