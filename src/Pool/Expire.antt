-- ===== src/Pool/Expire.antt =====
-- `pinba_request_pool_delete_old` of src/pool.cc: the request pool is a ring, from which the
-- records older than the window leave at its front. The ring has fewer than 2^32 slots, so that
-- its ids fit `unsigned int`.
pub mod Rings
pub mod Window
use pinba_engine.Common.{
  add64, false, get_elem?, if◌then◌else◌, length, ltb_ℤ, nat_eq, none, set, some, string_eq, suc,
  zero, ℕ, ◌==◌,
}
use pinba_engine.Time.{Timeval, timercmp}
use pinba_engine.Floats.{Floats}
use pinba_engine.Record.{StatsRecord}
use pinba_engine.Pool.{Pool, next_id}

-- The pool and the two counters that the function is given.
pub record Expired (fl : Floats) : Type 0 where
  pub pool : Pool (StatsRecord fl)
  pub deleted_timer_cnt : ℕ
  pub rtags_cnt : ℕ

module _ {fl : Floats} where
  -- The record is marked and `out` moves on.
  unfoldable pub retire : StatsRecord fl → ℕ → Expired fl → Expired fl
  retire r i e =
      let p = e.pool in
      let out = add64 p.out_index 1 in
      record {
        pool = record p {
          items = set p.items i (record r { active = false });
          out_index = if out == p.size then 0 else out;
        };
        deleted_timer_cnt = add64 e.deleted_timer_cnt r.timers_cnt;
        rtags_cnt = add64 e.rtags_cnt (length r.tags);
      }

  -- The traversal from `i`, for at most `fuel` records.
  unfoldable pub delete_old_loop : ℕ → Timeval → ℕ → Expired fl → Expired fl
  unfolding retire
  delete_old_loop zero from i e = e
  delete_old_loop (suc fuel) from i e =
      if i == e.pool.in_index then e else elim (get_elem? e.pool.items i) [
        | none ↦ e
        | some r ↦
            let rest = delete_old_loop fuel from (next_id e.pool.size i) (retire r i e) in
            if timercmp ltb_ℤ r.time from then rest else e
      ]

  -- A traversal visits no slot twice.
  unfoldable pub request_pool_delete_old : Timeval → Pool (StatsRecord fl) → Expired fl
  unfolding delete_old_loop
  request_pool_delete_old from p =
      delete_old_loop p.size from p.out_index
        (record { pool = p; deleted_timer_cnt = 0; rtags_cnt = 0 })
