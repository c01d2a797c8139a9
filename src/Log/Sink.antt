-- ===== src/Log/Sink.antt =====
-- A log without its buffer: what the methods and the reloads of `SrsFastLog` do to the level and the
-- file, and what comes out, with every line as a whole.
pub mod Over
pub mod Lines
pub mod History
use srslog.Base.{
  ℕ, ◌==◌, Bool, ◌&&◌, Option, none, some, List, [], ◌∷◌, ◌++◌, leb, ltb, not, if◌then◌else◌,
}
use srslog.Base.Int.{ℤ, pos, ltb_ℤ}
use srslog.Bytes.{Bytes, codes, empty, c_str}
use srslog.Config.{ConfigInfo, get_log_tank_file, get_log_level, get_log_file_name}
use srslog.Log.Header.{Tm, header_text}
use srslog.Log.Line.{line_of}
use srslog.Log.Overflow.{start_of, errno_text}
use srslog.Log.Reload.{opened}
use srslog.Log.{FastLog, LogEnv, Logged, Output, print, write_fd, close_fd}
use srslog.Log
use srslog.Log.Level.{
  level_verbose, level_info, level_trace, level_warn, level_error, srs_get_log_level, color_of,
}

pub record Sink : Type 0 where
  pub level : ℕ
  pub fd : ℤ
  pub tank : Bool

abbrev pub over : Sink → Bytes → FastLog
over s buf = record { level = s.level; log_data = buf; fd = s.fd; log_to_file_tank = s.tank }

pub data Severity : Type 0 where
  verbose_line info_line trace_line warn_line error_line : Severity

-- A call of a method, the initialization, or a reload.
pub data Call : Type 0 where
  says : Severity → Option Bytes → Bytes → LogEnv → Call
  initializes reloads_tank reloads_level reloads_file : LogEnv → Call

abbrev pub level_of : Severity → ℕ
level_of verbose_line = level_verbose
level_of info_line = level_info
level_of trace_line = level_trace
level_of warn_line = level_warn
level_of error_line = level_error

abbrev pub name_of : Severity → Bytes
name_of verbose_line = codes "verb"
name_of info_line = codes "debug"
name_of trace_line = codes "trace"
name_of warn_line = codes "warn"
name_of error_line = codes "error"

-- The severities whose header has the errno.
abbrev pub is_grave : Severity → Bool
is_grave m = leb level_warn (level_of m)

-- Header and message, and behind an error the text of its errno.
abbrev pub text_of : Severity → Option Bytes → Bytes → LogEnv → ℕ → Tm → Bytes
text_of m tag message env usec tm =
    start_of (header_text (is_grave m) tag tm usec (name_of m) env.pid env.context_id env.errno)
      message
    ++ (if (level_of m == level_error) && not (env.errno == 0) then errno_text env else [])

-- The file of the configured name, if there is a name.
abbrev pub takes_file : LogEnv → ConfigInfo → Sink → Sink
takes_file env c s =
    if empty (get_log_file_name c) then s else record s { fd = opened env (get_log_file_name c) }

abbrev pub closed : Sink → List Output
closed s = if ltb_ℤ (pos 0) s.fd then close_fd s.fd ∷ [] else []

-- A log that writes to a file and has none opens it before a line.
abbrev pub opens_file : LogEnv → Sink → Sink
opens_file env s =
    if not s.tank
    then s
    else if ltb_ℤ s.fd (pos 0)
    then elim env.config [ none ↦ s | some c ↦ takes_file env c s ]
    else s

abbrev pub puts : LogEnv → ℕ → Bytes → Sink → Sink × List Output
puts env level line s =
    let s' = opens_file env s in
    if not s.tank
    then (s', print (color_of level) (c_str line) ∷ [])
    else if ltb_ℤ (pos 0) s'.fd
    then (s', write_fd s'.fd line ∷ [])
    else (s', [])

abbrev pub sink_call : Call → Sink → Sink × List Output
sink_call (says m tag message env) s =
    if ltb (level_of m) s.level then (s, []) else (elim env.usec_of_day [
      | none ↦ (s, [])
      | some usec ↦ elim env.local_time [
        | none ↦ (s, [])
        | some tm ↦ puts env (level_of m) (line_of (text_of m tag message env usec tm)) s
      ]
    ])
sink_call (initializes env) s = elim env.config [
  | none ↦ (s, [])
  | some c ↦
      (record s { tank = get_log_tank_file c; level = srs_get_log_level (get_log_level c) }, [])
]
sink_call (reloads_tank env) s = elim env.config [
  | none ↦ (s, [])
  | some c ↦
      let s' = record s { tank = get_log_tank_file c } in
      if s.tank then (s', []) else if s'.tank then (takes_file env c s', closed s) else (s', [])
]
sink_call (reloads_level env) s = elim env.config [
  | none ↦ (s, [])
  | some c ↦ (record s { level = srs_get_log_level (get_log_level c) }, [])
]
sink_call (reloads_file env) s = elim env.config [
  | none ↦ (s, [])
  | some c ↦ if s.tank then (takes_file env c s, closed s) else (s, [])
]

abbrev pub sink_run : List Call → Sink → Sink × List Output
sink_run [] s = (s, [])
sink_run (c ∷ cs) s =
    let (s', outs) = sink_call c s in let (s'', outs') = sink_run cs s' in (s'', outs ++ outs')

-- The same calls on the log of the source.
abbrev pub log_call : Call → FastLog → Logged
log_call (says verbose_line tag message env) l = Log.verbose tag (some message) env l
log_call (says info_line tag message env) l = Log.info tag (some message) env l
log_call (says trace_line tag message env) l = Log.trace tag (some message) env l
log_call (says warn_line tag message env) l = Log.warn tag (some message) env l
log_call (says error_line tag message env) l = Log.error tag (some message) env l
log_call (initializes env) l = some ((Log.initialize env l).1, [])
log_call (reloads_tank env) l =
    let (ret, l', outs) = Log.on_reload_log_tank env l in some (l', outs)
log_call (reloads_level env) l = some ((Log.on_reload_log_level env l).1, [])
log_call (reloads_file env) l =
    let (ret, l', outs) = Log.on_reload_log_file env l in some (l', outs)

abbrev pub log_run : List Call → FastLog → Logged
log_run [] l = some (l, [])
log_run (c ∷ cs) l = elim (log_call c l) [
  | none ↦ none
  | some (l', outs) ↦ elim (log_run cs l') [
    | none ↦ none
    | some (l'', outs') ↦ some (l'', outs ++ outs')
  ]
]
