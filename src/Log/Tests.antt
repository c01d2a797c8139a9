-- ===== src/Log/Tests.antt =====
-- Lines at fixed inputs, and the theorems about the log there.
use mathlib.Core.Option.{some-injective}
use srslog.Base.{
  ◌++◌, ℕ, ◌<◌, ◌≤◌, ◌≡◌, ◌≢◌, ◌↔◌, refl, true, false, none, some, List, [], ◌∷◌, arith, length,
  replicate,
}
use srslog.Base.Int.{pos, negsuc}
use srslog.Bytes.{Bytes, codes, decimal}
use srslog.Config.{
  ConfigInfo, conf_log_file, conf_log_level, get_value, get_log_level, get_log_tank_file,
  get_log_file_name,
}
use srslog.Log.Fields.{fields, field_texts, fields-header_text}
use srslog.Log.Header.{Tm, header_text}
use srslog.Log.Overflow.{Runs}
use srslog.Log.Errors.{error_start, error_overflows_iff}
use srslog.Context.{ThreadContext, new_context, get_id, generate_id, assign, find}
use srslog.Context.Distinct
use srslog.Log.Threads.{Logs, Signs, header_of, thread_of, lines_tell_threads}
use srslog.Log.Sink.{
  Sink, over, Call, says, initializes, reloads_file, trace_line, info_line, error_line, sink_run,
  log_run,
}
use srslog.Log.Sink.Lines.{Fits, AllFit}
use srslog.Log.Sink.History.{Shows, log_run-Shows}
use srslog.Log.{new_log, FastLog, LogEnv, write_fd, close_fd, error}
use srslog.Log.Level.{srs_get_log_level, level_error}

abbrev noon : Tm
noon = record { tm_year = 115; tm_mon = 4; tm_mday = 1; tm_hour = 12; tm_min = 3; tm_sec = 9 }

abbrev settings : List (Bytes × Bytes)
settings = (conf_log_file, codes "app.log") ∷ (conf_log_level, codes "loud") ∷ []

abbrev config : ConfigInfo
config = record { json = []; json_map = settings }

abbrev nameless : ConfigInfo
nameless = record { json = []; json_map = [] }

abbrev env_with : ℕ → ConfigInfo → LogEnv
env_with errno c = record {
  usec_of_day = some 42999;
  local_time = some noon;
  pid = 77;
  context_id = 100;
  errno = errno;
  strerror = λ n. codes "denied";
  config = some c;
  open_file = λ name. (pos 9, 0);
  create_file = λ name. pos 11;
}

abbrev file_log : FastLog
file_log = record { level = 3; log_data = replicate 4096 0; fd = pos 5; log_to_file_tank = true }

-- The header that the format of the source gives.
header_noon :
    header_text true none noon 42999 (codes "warn") 77 100 13
    ≡ codes "[2015-05-01 12:03:09.042][warn][77][100][13] "
unfolding header_text decimal
header_noon = refl

runs : (errno level : ℕ) → 3 ≤ level → Runs (env_with errno config) file_log level 42999 noon
runs errno level h = record { day = refl; calendar = refl; buffer = refl; enabled = h }

error_start_short :
    length (error_start none (codes "hello") (env_with 13 config) file_log 42999 noon) ≡ 51
unfolding header_text decimal
error_start_short = refl

error_overflows_iff_example :
    (error none (some (codes "hello")) (env_with 13 config) file_log ≡ none) ↔ (
      (◌≢◌ {A = ℕ} 13 0)
      × (4096 < length (error_start none (codes "hello") (env_with 13 config) file_log 42999 noon)))
error_overflows_iff_example =
    error_overflows_iff none (codes "hello") (env_with 13 config) file_log 42999 noon
      (runs 13 level_error (omega arith)) (omega (arith, error_start_short))

-- A trace, an error with its errno, a nameless reload of the file, and a trace with no clock.
abbrev night : List Call
night =
    says trace_line none (codes "hello") (env_with 0 config)
    ∷ says error_line none (codes "hello") (env_with 13 config)
    ∷ reloads_file (env_with 0 nameless)
    ∷ says info_line none (codes "hello") (env_with 0 config)
    ∷ []

abbrev file_sink : Sink
file_sink = record { level = 3; fd = pos 5; tank = true }

short : length (error_start none (codes "hello") (env_with 13 config) file_log 42999 noon) ≤ 4096
short = omega (arith, error_start_short)

night-AllFit : AllFit night
night-AllFit =
    let fits : Fits (says error_line none (codes "hello") (env_with 13 config)) =
      λ set usec tm d t. rw (← (some-injective _ usec d), ← (some-injective _ tm t)) short in
    (tt, (fits, (tt, (tt, tt))))

log_run-Shows_example :
    Shows (sink_run night file_sink) (log_run night (over file_sink (replicate 4096 0)))
log_run-Shows_example = log_run-Shows night file_sink (replicate 4096 0) refl night-AllFit

night_lines :
    (sink_run night file_sink).1
    ≡ write_fd (pos 5) (codes "[2015-05-01 12:03:09.042][trace][77][100] hello\n")
      ∷ write_fd (pos 5) (codes "[2015-05-01 12:03:09.042][error][77][100][13] hello(denied)\n")
      ∷ close_fd (pos 5)
      ∷ []
unfolding header_text decimal get_log_file_name get_value
night_lines = refl

abbrev new_sink : Sink
new_sink = record { level = 3; fd = negsuc 0; tank = false }

-- The sink of a new log.
new_log-over : over new_sink (replicate 4096 0) ≡ new_log (replicate 4096 0)
new_log-over = refl

-- The configured level is misspelt.
silent_night : (sink_run (initializes (env_with 0 config) ∷ night) new_sink).1 ≡ []
unfolding get_log_level get_log_file_name get_log_tank_file get_value srs_get_log_level
silent_night = refl

-- Two threads with their ids.
abbrev two_ids : List Distinct.Call
two_ids = Distinct.generates 1 ∷ Distinct.generates 2 ∷ []

abbrev ids : ThreadContext
ids = Distinct.run new_context two_ids

first_id : (get_id 1 ids).0 ≡ 100
unfolding get_id generate_id assign find
first_id = refl

second_id : (get_id 2 ids).0 ≡ 101
unfolding get_id generate_id assign find
second_id = refl

trace_header :
    length (header_of trace_line (record (env_with 0 config) { context_id = 100 }) 42999 noon) ≡ 42
unfolding header_text decimal
trace_header = refl

error_header :
    length (header_of error_line (record (env_with 0 config) { context_id = 101 }) 42999 noon) ≡ 45
unfolding header_text decimal
error_header = refl

trace_Logs : Logs trace_line (codes "hello") (env_with 0 config) file_log 100
trace_Logs = record {
  usec = 42999;
  tm = noon;
  runs = record { day = refl; calendar = refl; buffer = refl; enabled = omega arith };
  fits = tt;
  short = omega (arith, trace_header);
  to_file = refl;
  open_fd = omega arith;
}

error_Logs : Logs error_line (codes "bye") (env_with 0 config) file_log 101
error_Logs = record {
  usec = 42999;
  tm = noon;
  runs = record { day = refl; calendar = refl; buffer = refl; enabled = omega arith };
  fits = λ set usec tm d t. absurd (set refl);
  short = omega (arith, error_header);
  to_file = refl;
  open_fd = omega arith;
}

lines_tell_threads_example :
    (line line' : Bytes) × (ids.overflowed ≡ false)
    × Signs trace_line 1 (codes "hello") (env_with 0 config) ids file_log line
    × Signs error_line 2 (codes "bye") (env_with 0 config) ids file_log line'
    × (thread_of false line ≢ thread_of true line')
unfolding get_id generate_id assign find
lines_tell_threads_example =
    lines_tell_threads two_ids 1 2 trace_line error_line (codes "hello") (codes "bye")
      (env_with 0 config) (env_with 0 config) file_log file_log (omega arith) (omega arith)
      (omega arith) trace_Logs error_Logs

fields-header_text_example :
    fields 5 (header_text true none noon 42999 (codes "warn") 77 100 13 ++ codes "hello]")
    ≡ some (field_texts true noon 42999 (codes "warn") 77 100 13, codes "hello]")
fields-header_text_example =
    fields-header_text true noon 42999 (codes "warn") 77 100 13 (codes "hello]") refl
