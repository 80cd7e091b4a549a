-- ===== src/TagReport.antt =====
-- The tag reports of src/data.cc, which group the timers of the requests by the values of their
-- tags. A report's rows are in a store, and a row that is changed through its pointer is one that
-- is stored again; memory for a row is always there.
pub mod Groups
pub mod Updates
pub mod Members
pub mod Rows
pub mod Timers
pub mod Leaving
pub mod Tables
pub mod Window
pub mod Slide
pub mod Many
use pinba_engine.Common.{
  Bool, CString, Eq, List, Option, [], add64, eqb_ℤ, get_elem?, if◌then◌else◌, leb, ltb, ltb_ℤ,
  nat_eq, none, pos, some, string_eq, sub64, suc, zero, ℕ, ◌&&◌, ◌+◌, ◌-ℤ◌, ◌-◌, ◌==◌, ◌^◌, ◌||◌,
  ◌∷◌,
}
use pinba_engine.Time.{Timeval, null_timeval, timeradd, timercmp, timersub}
use pinba_engine.Floats.{Floats}
use pinba_engine.Lmap.{Lmap}
use pinba_engine.Histogram.{HistogramConfig, size_of_int, update_histogram}
use pinba_engine.Record.{StatsRecord}
use pinba_engine.Pool.{Pool, store}
use pinba_engine.Store.{Store}
use pinba_engine.Report.{}

-- `pinba_timer_record`: a tag is its identifier and the address of its value's word. `hit_count` is
-- not negative, as src/pinba_request_validation.h makes sure.
pub record Timer : Type 0 where
  pub value : Timeval
  pub ru_utime : Timeval
  pub ru_stime : Timeval
  pub hit_count : ℕ
  pub timer_tags : List (ℕ × ℕ)

-- `pinba_tag_info_data` and the other rows, which differ in their labels only.
pub record TagRow : Type 0 where
  pub histogram_data : Lmap ℕ
  pub req_count : ℕ
  pub hit_count : ℕ
  pub timer_value : Timeval
  pub ru_utime_value : Timeval
  pub ru_stime_value : Timeval
  pub row_labels : List CString
  pub prev_add_request_id : ℕ
  pub prev_del_request_id : ℕ

-- `pinba_tag_report`, with the fields of its `std` that the updates touch.
pub record TagReport (Table : Type 0) : Type 0 where
  pub results : Table
  pub results_cnt : ℕ
  pub start : Timeval
  pub request_pool_start_id : ℕ

-- `record_get_timer`
unfoldable pub record_get_timer : {fl : Floats} → Pool Timer → StatsRecord fl → ℕ → Option Timer
record_get_timer pool r i =
    let at = add64 r.timers_start i in
    if leb pool.size at then get_elem? pool.items (sub64 at pool.size) else get_elem? pool.items at

-- The timers of a record from the `i`-th on, `n` of them.
unfoldable pub timers_from : {fl : Floats} → Pool Timer → StatsRecord fl → ℕ → ℕ → List Timer
unfolding record_get_timer
timers_from pool r i zero = []
timers_from pool r i (suc n) =
    let rest = timers_from pool r (i + 1) n in
    elim (record_get_timer pool r i) [ none ↦ rest | some t ↦ t ∷ rest ]

unfoldable pub timers_of : {fl : Floats} → Pool Timer → StatsRecord fl → List Timer
unfolding timers_from
timers_of pool r = timers_from pool r 0 r.timers_cnt

-- `PINBA_REPORT_DELETE_CHECK`
unfoldable pub tag_predates : {fl : Floats} {T : Type 0} → TagReport T → StatsRecord fl → Bool
tag_predates report r =
    timercmp (λ x y. ltb_ℤ y x) report.start r.time
    || (timercmp eqb_ℤ report.start r.time && ltb r.counter report.request_pool_start_id)

module _ (fl : Floats) (cfg : HistogramConfig fl) where
  -- A row for its first timer. The last two fields are the ids of requests, and -1 is none.
  unfoldable pub new_tag_row : ℕ → List CString → Timer → TagRow
  new_tag_row request_id labels timer = record {
    histogram_data = none;
    req_count = 1;
    hit_count = size_of_int (pos timer.hit_count);
    timer_value = timer.value;
    ru_utime_value = null_timeval;
    ru_stime_value = null_timeval;
    row_labels = labels;
    prev_add_request_id = request_id;
    prev_del_request_id = 2 ^ 64 - 1;
  }

  unfoldable pub add_value : Timer → TagRow → TagRow
  add_value timer row = record row {
    hit_count = add64 row.hit_count timer.hit_count;
    timer_value = timeradd row.timer_value timer.value;
  }

  unfoldable pub add_usage : Timer → TagRow → TagRow
  add_usage timer row = record row {
    ru_utime_value = timeradd row.ru_utime_value timer.ru_utime;
    ru_stime_value = timeradd row.ru_stime_value timer.ru_stime;
    histogram_data = update_histogram fl cfg row.histogram_data timer.value (pos timer.hit_count);
  }

  -- Tag values are counted only once per request.
  unfoldable pub count_request : ℕ → TagRow → TagRow
  count_request request_id row =
      if request_id == row.prev_add_request_id
      then row
      else record row { req_count = add64 row.req_count 1; prev_add_request_id = request_id }

  unfoldable pub add_timer : ℕ → List CString → Timer → Option TagRow → TagRow
  unfolding new_tag_row add_value add_usage count_request
  add_timer request_id labels timer none =
      count_request request_id (add_usage timer (new_tag_row request_id labels timer))
  add_timer request_id labels timer (some row) =
      count_request request_id (add_usage timer (add_value timer row))

  unfoldable pub uncount_request : ℕ → TagRow → TagRow
  uncount_request request_id row =
      if request_id == row.prev_del_request_id
      then row
      else record row { req_count = sub64 row.req_count 1; prev_del_request_id = request_id }

  unfoldable pub subtract_timer : Timer → TagRow → TagRow
  subtract_timer timer row = record row {
    hit_count = sub64 row.hit_count timer.hit_count;
    timer_value = timersub row.timer_value timer.value;
    ru_utime_value = timersub row.ru_utime_value timer.ru_utime;
    ru_stime_value = timersub row.ru_stime_value timer.ru_stime;
    histogram_data =
        update_histogram fl cfg row.histogram_data timer.value (pos 0 -ℤ pos timer.hit_count);
  }

  -- `none`: the last request of the row is gone, and the row with it.
  unfoldable pub delete_timer : ℕ → Timer → TagRow → Option TagRow
  unfolding uncount_request subtract_timer
  delete_timer request_id timer row =
      let row' = uncount_request request_id row in
      if row'.req_count == 0 then none else some (subtract_timer timer row')

  module _ {K : Type 0} ⦃e : Eq K⦄ (store : Store K TagRow) (key_of : Timer → Option K)
      (labels_of : Timer → List CString) where
    open store use {Table, get, put, remove}

    unfoldable pub add_at : ℕ → Timer → K → TagReport Table → TagReport Table
    add_at request_id timer k report = record report {
      results =
          put report.results k
            (add_timer request_id (labels_of timer) timer (get report.results k));
      results_cnt = elim (get report.results k) [
        | none ↦ add64 report.results_cnt 1
        | some row ↦ report.results_cnt
      ];
    }

    unfoldable pub add_timers : ℕ → List Timer → TagReport Table → TagReport Table
    unfolding add_at
    add_timers request_id [] report = report
    add_timers request_id (timer ∷ timers) report =
        add_timers request_id timers
          (elim (key_of timer) [ none ↦ report | some k ↦ add_at request_id timer k report ])

    unfoldable pub store_row : K → TagReport Table → Option TagRow → TagReport Table
    store_row k report none = record report {
      results = remove report.results k;
      results_cnt = sub64 report.results_cnt 1;
    }
    store_row k report (some row) = record report { results = put report.results k row }

    unfoldable pub delete_at : ℕ → Timer → K → TagReport Table → Option TagRow → TagReport Table
    unfolding store_row
    delete_at request_id timer k report none = report
    delete_at request_id timer k report (some row) =
        store_row k report (delete_timer request_id timer row)

    unfoldable pub delete_timers : ℕ → List Timer → TagReport Table → TagReport Table
    unfolding delete_at
    delete_timers request_id [] report = report
    delete_timers request_id (timer ∷ timers) report =
        delete_timers request_id timers (elim (key_of timer) [
          | none ↦ report
          | some k ↦ delete_at request_id timer k report (get report.results k)
        ])
