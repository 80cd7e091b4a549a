-- ===== src/TagReport/Many/Scan.antt =====
-- The search for the tags of a report by several tags, src/data.cc: on the tags of a timer that has
-- no tag twice it finds the values that a look-up of each tag does.
use pinba_engine.Common.{
  ==_iff, Bool, Bool-cases, Distinct, List, Option, Option-cases, [], ap, append_assoc, arith,
  false, find, fresh, if◌then◌else◌, inl, inr, length, length-append, nat_eq, none, refl, set, some,
  string_eq, subst, suc, sym, true, ℕ, ◌++◌, ◌+◌, ◌==◌, ◌∙◌, ◌∷◌, ◌≡◌,
}
use pinba_engine.TagReport.Groups.{find_all, find_tag}
use pinba_engine.TagReport.Many.{Search, scan_ids, scan_tags, search_words, take_word, visit_tag}

find_tag-find : (id : ℕ) (tags : List (ℕ × ℕ)) → find_tag id tags ≡ find id tags
unfolding find_tag find
find_tag-find id [] = refl
find_tag-find id ((i, v) ∷ tags) = ground (arith, find_tag-find id tags)

visit_tag-other :
    (cnt h id i v : ℕ) (st : Search) → (id == i) ≡ false → visit_tag cnt h id (i, v) st ≡ st
unfolding visit_tag
visit_tag-other cnt h id i v st e = elim (Bool-cases st.jumped) [
  | inl j ↦ simp (j, e) refl
  | inr j ↦ simp (j, e) refl
]

visit_tag-here :
    (cnt h id i v : ℕ) (st : Search)
    → (id == i) ≡ true
    → st.jumped ≡ false
    → visit_tag cnt h id (i, v) st ≡ take_word cnt h v st
unfolding visit_tag
visit_tag-here cnt h id i v st e j = simp (j, e) refl

scan_tags-absent :
    (cnt h id : ℕ) (tags : List (ℕ × ℕ)) (st : Search)
    → find_tag id tags ≡ none
    → scan_tags cnt h id tags st ≡ st
unfolding scan_tags find_tag
scan_tags-absent cnt h id [] st e = refl
scan_tags-absent cnt h id ((i, v) ∷ tags) st e = elim (Bool-cases (id == i)) [
  | inl same ↦ absurd (omega (arith, ap fresh (rw same at e)))
  | inr other ↦
      rw (visit_tag-other cnt h id i v st other) (scan_tags-absent cnt h id tags st (rw other at e))
]

-- What the inner loop comes to.
abbrev scan_result : ℕ → ℕ → Search → Option ℕ → Search
scan_result cnt h st none = st
scan_result cnt h st (some v) = take_word cnt h v st

scan_tags_lem :
    (cnt h id : ℕ) (tags : List (ℕ × ℕ)) (st : Search)
    → st.jumped ≡ false
    → Distinct tags
    → scan_tags cnt h id tags st ≡ scan_result cnt h st (find_tag id tags)
unfolding scan_tags find_tag
scan_tags_lem cnt h id [] st j d = refl
scan_tags_lem cnt h id ((i, v) ∷ tags) st j d = elim (Bool-cases (id == i)) [
  | inl same ↦
      rw (visit_tag-here cnt h id i v st same j, same)
        (scan_tags-absent cnt h id tags (take_word cnt h v st)
          (rw (find_tag-find id tags, (==_iff id i).0 same) d.0))
  | inr other ↦
      rw (visit_tag-other cnt h id i v st other, other) (scan_tags_lem cnt h id tags st j d.1)
]

scan_ids-absent :
    (cnt h id : ℕ) (ids : List ℕ) (tags : List (ℕ × ℕ)) (st : Search)
    → st.jumped ≡ false
    → Distinct tags
    → find_tag id tags ≡ none
    → scan_ids cnt h (id ∷ ids) tags st ≡ record st { found = false }
unfolding scan_ids
scan_ids-absent cnt h id ids tags st j d e =
    rw (scan_tags_lem cnt h id tags (record st { found = false }) j d, e) (simp j refl)

-- The state after the word is taken.
scan_ids-here :
    (cnt h id v : ℕ) (ids : List ℕ) (tags : List (ℕ × ℕ)) (st : Search)
    → st.jumped ≡ false
    → Distinct tags
    → find_tag id tags ≡ some v
    → scan_ids cnt h (id ∷ ids) tags st ≡ (
        let st' = take_word cnt h v st in
        if (st.found_tags_cnt + 1) == cnt then st' else scan_ids cnt (h + 1) ids tags st')
unfolding scan_ids take_word
scan_ids-here cnt h id v ids tags st j d e =
    rw (scan_tags_lem cnt h id tags (record st { found = false }) j d, e)
      (elim (Bool-cases ((st.found_tags_cnt + 1) == cnt)) [
        | inl last ↦ rw last refl
        | inr more ↦ rw more refl
      ])

set-append : (xs ys : List ℕ) (x v : ℕ) → set (xs ++ x ∷ ys) (length xs) v ≡ (xs ++ v ∷ []) ++ ys
set-append [] ys x v = refl
set-append (a ∷ xs) ys x v = ap (λ l. a ∷ l) (set-append xs ys x v)

-- What the search found, and no word if it did not find all.
abbrev outcome : ℕ → Search → Option (List ℕ)
outcome cnt st = if st.found_tags_cnt == cnt then some st.words else none

abbrev after : List ℕ → Option (List ℕ) → Option (List ℕ)
after pre none = none
after pre (some vs) = some (pre ++ vs)

-- The words of the tags before the `h`-th are found, and `jumped` does not hold.
abbrev midway : List ℕ → List ℕ → Bool → Search
midway pre old b = record {
  words = pre ++ old;
  found_tags_cnt = length pre;
  found = b;
  jumped = false;
}

record Finds (cnt : ℕ) (o : Option (List ℕ)) (st : Search) : Type 0 where
  finds : outcome cnt st ≡ o
  words_kept : length st.words ≡ cnt

find_all-absent :
    (id : ℕ) (ids : List ℕ) (tags : List (ℕ × ℕ))
    → find_tag id tags ≡ none
    → find_all (id ∷ ids) tags ≡ none
unfolding find_all
find_all-absent id ids tags e = rw (find_all, e) refl

find_all-here :
    (id v : ℕ) (ids : List ℕ) (tags : List (ℕ × ℕ)) (pre : List ℕ)
    → find_tag id tags ≡ some v
    → after pre (find_all (id ∷ ids) tags) ≡ after (pre ++ v ∷ []) (find_all ids tags)
unfolding find_all
find_all-here id v ids tags pre e =
    rw (find_all, e)
      (elim (Option-cases (find_all ids tags)) [
        | inl no_rest ↦ rw no_rest refl
        | inr (vs, has_rest) ↦ rw has_rest (ap some (sym (append_assoc pre (v ∷ []) vs)))
      ])

take_word-midway :
    (cnt v x : ℕ) (pre old : List ℕ) (b : Bool)
    → ((length pre + 1) == cnt) ≡ false
    → take_word cnt (length pre) v (midway pre (x ∷ old) b) ≡ midway (pre ++ v ∷ []) old true
unfolding take_word
take_word-midway cnt v x pre old b e =
    rw (set-append pre old x v, e, length-append pre (v ∷ [])) refl

midway_done :
    (pre old : List ℕ) (b : Bool) (cnt : ℕ)
    → length old ≡ 0
    → cnt ≡ length pre
    → Finds cnt (some (pre ++ [])) (midway pre old b)
midway_done pre [] b cnt h c =
    let all : (length pre == cnt) ≡ true = ground (arith, c) in
    record { finds = rw all refl; words_kept = omega (arith, c, length-append pre []) }
midway_done pre (x ∷ old) b cnt h c = absurd (omega arith)

last_word :
    (ids pre old : List ℕ) (tags : List (ℕ × ℕ)) (b : Bool) (cnt v x : ℕ)
    → length old ≡ length ids
    → cnt ≡ length pre + suc (length ids)
    → ((length pre + 1) == cnt) ≡ true
    → Finds cnt
        (after (pre ++ v ∷ []) (find_all ids tags))
        (take_word cnt (length pre) v (midway pre (x ∷ old) b))
unfolding take_word find_all
last_word [] pre [] tags b cnt v x h c e = record {
  finds = rw (e, set-append pre [] x v) refl;
  words_kept =
      rw (set-append pre [] x v)
        (omega (arith, c, length-append (pre ++ v ∷ []) [], length-append pre (v ∷ [])));
}
last_word [] pre (y ∷ old) tags b cnt v x h c e = absurd (omega arith)
last_word (i ∷ ids) pre old tags b cnt v x h c e =
    absurd (omega (arith, (==_iff (length pre + 1) cnt).0 e, c))

scan_ids_lem :
    (ids pre old : List ℕ) (tags : List (ℕ × ℕ)) (b : Bool) (cnt : ℕ)
    → length old ≡ length ids
    → cnt ≡ length pre + length ids
    → Distinct tags
    → Finds cnt
        (after pre (find_all ids tags))
        (scan_ids cnt (length pre) ids tags (midway pre old b))
scan_ids_lem [] pre [] tags b cnt h c d =
    unfold scan_ids find_all in midway_done pre [] b cnt refl (omega (arith, c))
scan_ids_lem [] pre (x ∷ old) tags b cnt h c d = absurd (omega arith)
scan_ids_lem (id ∷ ids) pre [] tags b cnt h c d = absurd (omega arith)
scan_ids_lem (id ∷ ids) pre (x ∷ old) tags b cnt h c d = elim (Option-cases (find_tag id tags)) [
  | inl no_tag ↦
      rw
        (
          scan_ids-absent cnt (length pre) id ids tags (midway pre (x ∷ old) b) refl d no_tag,
          find_all-absent id ids tags no_tag,
        )
        (let not_all : (length pre == cnt) ≡ false = ground (arith, c) in
          record {
            finds = rw not_all refl;
            words_kept = omega (arith, c, h, length-append pre (x ∷ old));
          })
  | inr (v, has_tag) ↦
      rw
        (
          scan_ids-here cnt (length pre) id v ids tags (midway pre (x ∷ old) b) refl d has_tag,
          find_all-here id v ids tags pre has_tag,
        )
        (elim (Bool-cases ((length pre + 1) == cnt)) [
          | inl last ↦ rw last (last_word ids pre old tags b cnt v x (omega arith) c last)
          | inr more ↦
              rw (more, take_word-midway cnt v x pre old b more)
                (subst
                  (λ n.
                    Finds cnt (after (pre ++ v ∷ []) (find_all ids tags))
                      (scan_ids cnt n ids tags (midway (pre ++ v ∷ []) old true)))
                  (length-append pre (v ∷ []))
                  (scan_ids_lem ids (pre ++ v ∷ []) old tags true cnt (omega arith)
                    (omega (arith, c, length-append pre (v ∷ []))) d))
        ])
]

after_none : (o : Option (List ℕ)) → after [] o ≡ o
after_none none = refl
after_none (some vs) = refl

-- The search does not depend on the words that earlier timers left, and keeps their number.
pub search_words_lem :
    (ids words : List ℕ) (tags : List (ℕ × ℕ))
    → length words ≡ length ids
    → Distinct tags
    → let st = search_words ids words tags in
      ((if st.found_tags_cnt == length ids then some st.words else none) ≡ find_all ids tags)
      × (length st.words ≡ length ids)
unfolding search_words
search_words_lem ids words tags h d =
    let v = scan_ids_lem ids [] words tags false (length ids) h (omega arith) d in
    (v.finds ∙ after_none (find_all ids tags), v.words_kept)
