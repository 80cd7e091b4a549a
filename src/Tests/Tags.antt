-- ===== src/Tests/Tags.antt =====
-- The tag reports and the request tag reports over one or two requests, whose words have one byte.
use pinba_engine.Common.{
  All, CString, List, [], ap, arith, false, find, fresh, nat_eq, none, pos, refl, string_eq, ℕ, ◌∷◌,
  ◌≡◌,
}
use pinba_engine.Time.{null_timeval, timercmp}
use pinba_engine.Floats.{whole_numbers}
use pinba_engine.Map.{map_count, map_get}
use pinba_engine.Pool.{Pool}
use pinba_engine.Store.Flat.{flat_store}
use pinba_engine.TagReport.{TagReport, Timer, add_at, add_timers, tag_predates, timers_of}
use pinba_engine.TagReport.Updates.{
  RowTable, grouping_of, tag2_info_kind, tag_add_func, tag_delete_func,
}
use pinba_engine.TagReport.Members.{IsTimerNormal, Live, members}
use pinba_engine.TagReport.Slide.{TracksTags, tag_add_func-TracksTags, tag_delete_func-TracksTags}
use pinba_engine.Tests.Reports.{config, first, seconds, seconds-IsNormal}
use pinba_engine.TagReport.Many.{
  WideTable, search_timer, search_words, tag_n_info_kind, wide_add_at, wide_add_timers,
  wide_grouping_of,
}
use pinba_engine.TagReport.Many.Slide.{
  TagsOnce, TracksWords, wide_add_func-TracksWords, wide_delete_func-TracksWords,
}
use pinba_engine.RtagReport.{rtag_add, rtag_predates}
use pinba_engine.RtagReport.Groups.{find_two}
use pinba_engine.RtagReport.Updates.{
  RtagReportOf, RtagTable, rtag2_report_kind, rtag_add_func, rtag_delete_func, rtag_grouping_of,
}
use pinba_engine.RtagReport.Slide.{
  ChangesRtags, TracksRtags, rtag_add_func-TracksRtags, rtag_delete_func-TracksRtags,
}
use pinba_engine.Store.Nested.{nested_count, nested_get}
use pinba_engine.Record.{IsTimed}
use pinba_engine.Report.Sums.{null-SumsTo}
use pinba_engine.Report.Spec.{tally, total}
use pinba_engine.Store.Nested.Counts.{nested_store}
use pinba_engine.TagReport.Many.Kinds.{WideReportOf, wide_add_func, wide_delete_func}

abbrev byte_text : ℕ → CString
byte_text v = v ∷ []

abbrev timer : ℕ → Timer
timer hits = record {
  value = seconds 2;
  ru_utime = seconds 1;
  ru_stime = seconds 0;
  hit_count = hits;
  timer_tags = (1, 65) ∷ (2, 66) ∷ [];
}

timer-normal : (hits : ℕ) → IsTimerNormal (timer hits)
timer-normal hits = record {
  value_normal = seconds-IsNormal 2;
  utime_normal = seconds-IsNormal 1;
  stime_normal = seconds-IsNormal 0;
}

abbrev timers : List Timer
timers = timer 3 ∷ timer 4 ∷ []

abbrev timer_pool : Pool Timer
timer_pool = record {
  size = 2;
  limit_size = 0;
  grow_size = 2;
  element_size = 1;
  in_index = 0;
  out_index = 0;
  name = [];
  items = timers;
}

timers-normal : All IsTimerNormal timers
timers-normal = (timer-normal 3, (timer-normal 4, tt))

timers-TagsOnce : All TagsOnce timers
unfolding find
timers-TagsOnce = ((refl, (refl, tt)), ((refl, (refl, tt)), tt))

abbrev with_timers : Live whole_numbers
with_timers = record {
  request_id = 5;
  request = record first { timers_cnt = 2; tags = (1, 65) ∷ (2, 66) ∷ [] };
  timers = timers;
}

timers_there : timers_of timer_pool with_timers.request ≡ timers
unfolding timers_of
timers_there = refl

abbrev empty_tags : {T : Type 0} → T → TagReport T
empty_tags t = record {
  results = t;
  results_cnt = 0;
  start = null_timeval;
  request_pool_start_id = 0;
}

abbrev empty_table : RowTable (grouping_of whole_numbers byte_text 1 2 tag2_info_kind)
unfolding flat_store
empty_table = none

empty_tags-TracksTags :
    TracksTags whole_numbers config byte_text 1 2 tag2_info_kind [] (empty_tags empty_table)
unfolding members map_get map_count flat_store
empty_tags-TracksTags = record {
  rows = λ k. refl;
  is_counted = record { is_table = tt; rows_counted = refl };
}

abbrev tag2_report_state :
    TagReport (RowTable (grouping_of whole_numbers byte_text 1 2 tag2_info_kind))
tag2_report_state =
    tag_add_func whole_numbers config byte_text 1 2 tag2_info_kind 5 timer_pool with_timers.request
      (empty_tags empty_table)

tag_add_func-TracksTags_example :
    TracksTags whole_numbers config byte_text 1 2 tag2_info_kind
      (with_timers ∷ [])
      tag2_report_state
tag_add_func-TracksTags_example =
    tag_add_func-TracksTags whole_numbers config byte_text 1 2 tag2_info_kind [] timer_pool
      (empty_tags empty_table) with_timers empty_tags-TracksTags timers_there tt (omega arith)
      (omega arith) timers-normal

tag2_state_old : tag_predates tag2_report_state with_timers.request ≡ false
unfolding tag_predates tag_add_func timers_of add_timers map_get flat_store timercmp
tag2_state_old = ground arith

tag_delete_func-TracksTags_example :
    TracksTags whole_numbers config byte_text 1 2 tag2_info_kind [] (
      tag_delete_func whole_numbers config byte_text 1 2 tag2_info_kind 5 timer_pool
        with_timers.request tag2_report_state)
tag_delete_func-TracksTags_example =
    tag_delete_func-TracksTags whole_numbers config byte_text 1 2 tag2_info_kind [] timer_pool
      tag2_report_state with_timers tag_add_func-TracksTags_example timers_there tag2_state_old
      (record { hostname_short = omega arith; server_short = omega arith }) (λ a. omega arith) tt
      (omega arith) timers-normal

abbrev two_tags : List ℕ
two_tags = 1 ∷ 2 ∷ []

abbrev empty_wide_table : WideTable (wide_grouping_of whole_numbers tag_n_info_kind)
unfolding flat_store
empty_wide_table = none

abbrev empty_wide : WideReportOf whole_numbers tag_n_info_kind
empty_wide = record { tag_part = empty_tags empty_wide_table; words = 0 ∷ 0 ∷ [] }

empty_wide-TracksWords :
    TracksWords whole_numbers config byte_text two_tags tag_n_info_kind [] empty_wide
unfolding members map_get map_count flat_store
empty_wide-TracksWords = record {
  tracks = record { rows = λ k. refl; is_counted = record { is_table = tt; rows_counted = refl } };
  words_there = refl;
}

abbrev wide_state : WideReportOf whole_numbers tag_n_info_kind
wide_state =
    wide_add_func whole_numbers config byte_text two_tags tag_n_info_kind 5 timer_pool
      with_timers.request empty_wide

wide_add_func-TracksWords_example :
    TracksWords whole_numbers config byte_text two_tags tag_n_info_kind
      (with_timers ∷ [])
      wide_state
wide_add_func-TracksWords_example =
    wide_add_func-TracksWords whole_numbers config byte_text two_tags tag_n_info_kind [] timer_pool
      empty_wide with_timers empty_wide-TracksWords timers_there timers-TagsOnce tt (omega arith)
      (omega arith) timers-normal

wide_state_old : tag_predates wide_state.tag_part with_timers.request ≡ false
unfolding tag_predates wide_add_func search_timer timers_of wide_add_timers map_get flat_store
    timercmp wide_add_at search_words add_at
wide_state_old = ground arith

wide_delete_func-TracksWords_example :
    TracksWords whole_numbers config byte_text two_tags tag_n_info_kind [] (
      wide_delete_func whole_numbers config byte_text two_tags tag_n_info_kind 5 timer_pool
        with_timers.request wide_state)
wide_delete_func-TracksWords_example =
    wide_delete_func-TracksWords whole_numbers config byte_text two_tags tag_n_info_kind []
      timer_pool wide_state with_timers wide_add_func-TracksWords_example timers_there
      timers-TagsOnce wide_state_old tt (omega arith) timers-normal

abbrev empty_rtag_table :
    RtagTable (rtag_grouping_of whole_numbers byte_text two_tags rtag2_report_kind)
unfolding nested_store
empty_rtag_table = none

abbrev empty_rtag : RtagReportOf whole_numbers byte_text two_tags rtag2_report_kind
empty_rtag = record {
  results = empty_rtag_table;
  results_cnt = 0;
  start = null_timeval;
  request_pool_start_id = 0;
  time_total = null_timeval;
  ru_utime_total = null_timeval;
  ru_stime_total = null_timeval;
  kbytes_total = pos 0;
  memory_footprint = pos 0;
}

empty_rtag-TracksRtags :
    TracksRtags whole_numbers config byte_text two_tags rtag2_report_kind [] empty_rtag
unfolding nested_get nested_count nested_store map_get map_count tally total
empty_rtag-TracksRtags = record {
  rows = λ k. refl;
  is_table = record { outer = tt; inners = λ s inner h. absurd (omega (arith, ap fresh h)) };
  rows_counted = refl;
  time_sum = null-SumsTo;
  ru_utime_sum = null-SumsTo;
  ru_stime_sum = null-SumsTo;
}

abbrev rtag_state : RtagReportOf whole_numbers byte_text two_tags rtag2_report_kind
rtag_state =
    rtag_add_func whole_numbers config byte_text two_tags rtag2_report_kind with_timers.request
      empty_rtag

first-IsTimed : IsTimed with_timers.request
first-IsTimed = record {
  req_time_normal = seconds-IsNormal 3;
  ru_utime_normal = seconds-IsNormal 1;
  ru_stime_normal = seconds-IsNormal 0;
}

rtag_add_func-TracksRtags_example :
    TracksRtags whole_numbers config byte_text two_tags rtag2_report_kind
      (with_timers.request ∷ [])
      rtag_state
    × ChangesRtags whole_numbers config byte_text two_tags rtag2_report_kind with_timers.request
        empty_rtag rtag_state
rtag_add_func-TracksRtags_example =
    rtag_add_func-TracksRtags whole_numbers config byte_text two_tags rtag2_report_kind []
      empty_rtag with_timers.request empty_rtag-TracksRtags first-IsTimed (omega arith)

rtag_state_old : rtag_predates rtag_state with_timers.request ≡ false
unfolding rtag_predates rtag_add_func rtag_add find_two timercmp
rtag_state_old = ground arith

rtag_delete_func-TracksRtags_example :
    TracksRtags whole_numbers config byte_text two_tags rtag2_report_kind [] (
      rtag_delete_func whole_numbers config byte_text two_tags rtag2_report_kind with_timers.request
        rtag_state)
rtag_delete_func-TracksRtags_example =
    rtag_delete_func-TracksRtags whole_numbers config byte_text two_tags rtag2_report_kind []
      rtag_state with_timers.request rtag_add_func-TracksRtags_example.0 first-IsTimed (omega arith)
      rtag_state_old
