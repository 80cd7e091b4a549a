-- ===== src/Record.antt =====
-- `pinba_stats_record` of src/pinba_types.h: one request, as the raw pool keeps it. A text stands
-- for the bytes of its array and its length field; a dictionary word, for its address; the
-- allocated sizes of the arrays are left out.
use pinba_engine.Common.{Bool, CString, List, nat_eq, string_eq, ℕ}
use pinba_engine.Time.{IsNormal, Timeval}
use pinba_engine.Floats.{Floats}

pub record StatsRecord (fl : Floats) : Type 0 where
  pub script_name : CString
  pub server_name : CString
  pub hostname : CString
  pub schema : CString
  pub req_time : Timeval
  pub ru_utime : Timeval
  pub ru_stime : Timeval
  pub doc_size : fl.Double
  pub mem_peak_usage : fl.Double
  pub memory_footprint : fl.Double
  pub tags : List (ℕ × ℕ)
  pub req_count : ℕ
  pub status : ℕ
  pub time : Timeval
  pub timers_start : ℕ
  pub counter : ℕ
  pub timers_cnt : ℕ
  pub active : Bool
  pub dictionary_words : List ℕ

-- Every time of the record has its microseconds below a second.
pub record IsTimed {fl : Floats} (r : StatsRecord fl) : Type 0 where
  pub req_time_normal : IsNormal r.req_time
  pub ru_utime_normal : IsNormal r.ru_utime
  pub ru_stime_normal : IsNormal r.ru_stime
