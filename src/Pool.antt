-- ===== src/Pool.antt =====
-- The generic pools of src/pool.cc: arrays that grow, used as stacks by the collector threads and
-- as rings for raw requests and timers. An item stands for `element_size` bytes; `zero_item` is
-- one that is all zeroes, and `garbage` what `realloc` leaves in memory that it adds. A pool's
-- messages are not modelled.
pub mod Memory
pub mod Grow
pub mod Push
pub mod Lifetime
pub mod Expire
use pinba_engine.Common.{
  Bool, CString, List, [], add64, drop, if◌then◌else◌, leb, length, ltb, mul64, nat_eq, not,
  replicate, set, str_eq, string_eq, sub64, take, ℕ, ◌&&◌, ◌++◌, ◌+◌, ◌-◌, ◌<◌, ◌==◌, ◌^◌, ◌||◌,
  ◌∷◌, ◌≡◌, ◌≤◌,
}

-- `pinba_pool`, without its destructor. The counters of src/pinba_runtime.h that a pool touches
-- stand beside it.
pub record Pool (A : Type 0) : Type 0 where
  pub size : ℕ
  pub limit_size : ℕ
  pub grow_size : ℕ
  pub element_size : ℕ
  pub in_index : ℕ
  pub out_index : ℕ
  pub name : CString
  pub items : List A

pub record Staging : Type 0 where
  pub staging_slots : ℕ
  pub staging_bytes : ℕ

pub data Status : Type 0 where
  success failure : Status

-- `strncmp(name, "per_thread_", 11) == 0`
abbrev pub per_thread_prefix : CString
per_thread_prefix = b'p' ∷ b'e' ∷ b'r' ∷ b'_' ∷ b't' ∷ b'h' ∷ b'r' ∷ b'e' ∷ b'a' ∷ b'd' ∷ b'_' ∷ []

unfoldable pub is_per_thread : CString → Bool
is_per_thread name = str_eq (take 11 name) per_thread_prefix

-- `memmove` and `memset`, in items.
abbrev pub memmove : {A : Type 0} → ℕ → ℕ → ℕ → List A → List A
memmove dst src n xs = take dst xs ++ (take n (drop src xs) ++ drop (dst + n) xs)

abbrev pub memset : {A : Type 0} → ℕ → ℕ → A → List A → List A
memset at n z xs = take at xs ++ (replicate n z ++ drop (at + n) xs)

-- The next index in a ring, as in `pool_traverse_forward`.
unfoldable pub next_id : ℕ → ℕ → ℕ
next_id size i = if i == sub64 size 1 then 0 else add64 i 1

module _ {A : Type 0} where
  unfoldable pub num_records : Pool A → ℕ
  num_records p =
      if p.in_index == p.out_index
      then 0
      else if ltb p.out_index p.in_index
      then sub64 p.in_index p.out_index
      else sub64 p.size (sub64 p.out_index p.in_index)

  unfoldable pub new_size : Pool A → ℕ → ℕ
  new_size p grow_size =
      let size = add64 p.size (if grow_size == 0 then p.grow_size else grow_size) in
      if ltb 0 p.limit_size && ltb p.limit_size size then p.limit_size else size

  module _ (garbage zero_item : A) where
    -- The array after `realloc` and the moves of `pinba_pool_grow`, and the new `out`.
    unfoldable pub relocate : Pool A → ℕ → Pool A
    relocate p more =
        let fresh_items = p.items ++ replicate more garbage in
        let size = p.size + more in
        if size == more
        then record p { size = size; items = memset 0 size zero_item fresh_items }
        else if ltb p.in_index p.out_index
        then record p {
          size = size;
          items =
              memset p.out_index more zero_item
                (memmove (p.out_index + more) p.out_index (p.size - p.out_index) fresh_items);
          out_index = add64 p.out_index more;
        }
        else record p { size = size; items = memset p.size more zero_item fresh_items }

    unfoldable pub count_staging : Pool A → ℕ → Staging → Staging
    count_staging p more s =
        if is_per_thread p.name
        then record s {
          staging_slots = add64 s.staging_slots more;
          staging_bytes = add64 s.staging_bytes (mul64 more p.element_size);
        }
        else s

    -- `realloc_ok`: the `realloc` succeeds, with every byte that it is asked for.
    unfoldable pub grow : Bool → Pool A → ℕ → Staging → Status × Pool A × Staging
    unfolding relocate count_staging new_size
    grow realloc_ok p more s =
        let size = new_size p more in
        let added = sub64 size p.size in
        if p.size == size
        then (failure, p, s)
        else if leb size 0 || ltb size p.size
        then (failure, p, s)
        else if not realloc_ok
        then (failure, p, s)
        else (success, relocate p added, count_staging p added s)

    -- `p->data[p->in++] = data`, unless the growth failed.
    unfoldable pub store : A → Status × Pool A × Staging → Status × Pool A × Staging
    store item (failure, p, s) = (failure, p, s)
    store item (success, p, s) = (
      success,
      record p { items = set p.items p.in_index item; in_index = add64 p.in_index 1 },
      s,
    )

    unfoldable pub push : Bool → Pool A → ℕ → A → Staging → Status × Pool A × Staging
    unfolding grow store
    push realloc_ok p grow_size item s =
        store item (if p.in_index == p.size then grow realloc_ok p grow_size s else (success, p, s))

    -- The name's buffer has 256 bytes.
    unfoldable pub init : Bool → ℕ → ℕ → ℕ → ℕ → CString → Staging → Status × Pool A × Staging
    unfolding grow
    init realloc_ok size element_size limit_size grow_size pool_name s =
        let p : Pool A = record {
          size = 0;
          limit_size = limit_size;
          grow_size = if grow_size == 0 then size else grow_size;
          element_size = element_size;
          in_index = 0;
          out_index = 0;
          name = take 255 pool_name;
          items = [];
        } in
        if ltb 0 limit_size && ltb limit_size size
        then (failure, p, s)
        else grow realloc_ok p size s

  -- `pinba_pool_destroy` of a pool that has its array, after the destructor.
  unfoldable pub destroy : Pool A → Staging → Staging
  destroy p s =
      if is_per_thread p.name
      then record s {
        staging_slots = sub64 s.staging_slots p.size;
        staging_bytes = sub64 s.staging_bytes (mul64 p.size p.element_size);
      }
      else s

  -- The items from index `a` on, `n` of them.
  abbrev pub segment : List A → ℕ → ℕ → List A
  segment xs a n = take n (drop a xs)

  -- The items in use, oldest first.
  unfoldable pub contents : Pool A → List A
  contents p =
      if leb p.out_index p.in_index
      then segment p.items p.out_index (p.in_index - p.out_index)
      else segment p.items p.out_index (p.size - p.out_index) ++ segment p.items 0 p.in_index

-- The indices are within the array.
pub record IsPool {A : Type 0} (p : Pool A) : Type 0 where
  pub items_fit : length p.items ≡ p.size
  pub in_fits : p.in_index ≤ p.size
  pub out_fits : p.out_index ≤ p.size
  pub size_fits : p.size < 2 ^ 64
