-- ===== src/Lib.antt =====
-- Verification of the pinba storage engine, a MariaDB plugin that collects statistics of PHP
-- requests: packets are validated, become records in a ring of live requests, and every report
-- keeps for each group of live requests its counts, times and histogram. A record is added to the
-- reports when it arrives and deleted from them when it grows older than the window.
--
-- The modules and the code that they are about:
--   Time            src/pinba.h: pinba_timeradd, pinba_timersub, pinba_timercmp
--   Floats          src/pinba.h: timeval_to_float and the checks on times in seconds
--   Text            src/pinba.h: pinba_copy_truncated, pinba_append_truncated
--   Lmap, Map       src/pinba_lmap.cc, src/pinba_map.cc
--   Histogram       src/pinba.h: pinba_update_histogram
--   Record          src/pinba_types.h: pinba_stats_record
--   Conditions      src/pinba.h: CHECK_REPORT_CONDITIONS_CONTINUE
--   Report          src/pinba_update_report_tpl.h and what it expands to in
--                   src/pinba_update_report.h: Report.Groups has the indices and labels of the
--                   eighteen reports, Report.Updates their functions, Report.Info the report of
--                   all requests, Report.Spec what a report should say, Report.Window that it
--                   does while records come and go
--   Pool            src/pool.cc: pinba_pool_* (Pool.Grow, Pool.Push, Pool.Lifetime)
--                   and pinba_request_pool_delete_old (Pool.Expire)
--   Store           how a report keeps its rows: one map, or a map of maps, in src/data.cc
--   TagReport       src/data.cc, pinba_update_tag*: TagReport.Groups and TagReport.Updates have
--                   the reports by one and by two tags, TagReport.Many those by any number,
--                   TagReport.Members what a report should say, the rest that it does
--   RtagReport      src/data.cc, pinba_update_rtag*
--   ThreadPool      src/threadpool.cc: ThreadPool.Steps has the steps of the threads in any order,
--                   ThreadPool.Kept that they keep the invariant, ThreadPool.Drain what the
--                   workers come to
--   Jobs            src/pool.cc: update_reports_func, which joins the ring with the reports
--   Registry        src/pinba_regenerate_report.h and src/ha_pinba.cc: the functions that make a
--                   report on first use: a base report (Registry.Base), a tag report
--                   (Registry.Tags) or a request tag report (Registry.Rtags; Registry.Held and
--                   Registry.Words say what becomes of the words that it takes)
--   Request         src/pinba_request_validation.h
--   Dictionary      src/pinba_dictionary.cc, src/pinba_dictionary.h
--   Percentile      src/pinba_percentile.h
--   Common          lists, integers, Booleans, keys and association lists that these share
--   Tests           the theorems at concrete inputs
--
-- A function of the code is a function of the model with the same name, less the prefix `pinba_`
-- and with a small n (tag_n for tagN), from the state before to the result and the state after. A
-- null pointer is `none`. A size_t is kept below 2^64 by `add64`, `sub64` and `mul64`, which wrap;
-- tv_sec and tv_usec are unbounded integers. Floating point is a record of operations without laws, a parameter of all that uses
-- it, and no theorem depends on what a float is worth. std::unordered_map is an association list
-- without a repeated key, of which only lookups are observed. Memory for the rows of a report is
-- always there, as that code assumes; where the code handles a failed allocation, whether it
-- fails is an argument.
--
-- Loops are recursions on a list or on a number of steps. The only fuel is that of
-- `delete_old_loop`, which is the number of slots: a ring has at most that many records, and the
-- theorem about it holds without a further condition. `digits_from` has fuel for 20 digits, and a
-- status has at most 5.
--
-- Threads are modelled where a call gives its lock up in the middle (`intern_rdlock` has what
-- happens meanwhile as an argument) and in ThreadPool, where the threads take their steps in any
-- order, and those that own barriers start a batch, post its jobs and wait, as src/main.cc and
-- src/pool.cc do; elsewhere a call holds its lock throughout and is one step.
-- Not modelled are the SQL handler, sockets and threads, metrics and logging, generated Protobuf
-- code and the hash function; and the timer pool, the table of tags and the release of
-- reports. The words of the tags of a timer are addresses, and `text` gives the text of each.
pub mod Common
pub mod Time
pub mod Lmap
pub mod Map
pub mod Text
pub mod Floats
pub mod Histogram
pub mod Store
pub mod Record
pub mod Conditions
pub mod Report
pub mod Pool
pub mod TagReport
pub mod RtagReport
pub mod Request
pub mod ThreadPool
pub mod Registry
pub mod Dictionary
pub mod Percentile
pub mod Jobs
pub mod Tests
