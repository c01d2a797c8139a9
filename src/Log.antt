-- ===== src/Log.antt =====
-- src/base/app_log.h and app_log.cpp: the log that
-- writes lines through one buffer to the console or to a file. What the system answers during a call
-- is the argument `env`. `none` is a write outside the buffer.
pub mod Level
pub mod Buffer
pub mod Header
pub mod Holds
pub mod Line
pub mod Overflow
pub mod Errors
pub mod Reload
pub mod Fields
pub mod Sink
pub mod Macros
pub mod Threads
mod Tests
use srslog.Base.{
  ℕ, ◌+◌, ◌-◌, ◌==◌, Bool, true, false, ◌&&◌, not, Option, none, some, List, [], ◌∷◌, ◌++◌, length,
  take, leb, ltb, if◌then◌else◌,
}
use srslog.Base.Int.{ℤ, pos, negsuc, ◌+ℤ◌, ◌-ℤ◌, ltb_ℤ, eqb_ℤ, srs_min}
use srslog.Bytes.{Bytes, codes, beq, empty, c_str}
use srslog.ErrorCode.{success}
use srslog.Config.{ConfigInfo, get_log_tank_file, get_log_level, get_log_file_name}
use Level.{
  level_verbose, level_info, level_trace, level_warn, level_error, srs_get_log_level, Color,
  color_of,
}
use Buffer.{log_max_size, log_tail_size, to_size, store, snprintf}
use Header.{Tm, header_text}

pub record FastLog : Type 0 where
  pub level : ℕ
  pub log_data : Bytes
  pub fd : ℤ
  pub log_to_file_tank : Bool

-- The constructor; `buffer` is what the new buffer holds.
abbrev pub new_log : Bytes → FastLog
new_log buffer = record {
  level = level_trace;
  log_data = buffer;
  fd = negsuc 0;
  log_to_file_tank = false;
}

-- `usec_of_day` is `none` where `gettimeofday` fails, `local_time` where `localtime` does; `open`
-- gives a descriptor and the errno after it, `create` the second `open`'s descriptor.
pub record LogEnv : Type 0 where
  pub usec_of_day : Option ℕ
  pub local_time : Option Tm
  pub pid : ℕ
  pub context_id : ℕ
  pub errno : ℕ
  pub strerror : ℕ → Bytes
  pub config : Option ConfigInfo
  pub open_file : Bytes → ℤ × ℕ
  pub create_file : Bytes → ℤ

-- What the log does outside: a print, a write to a descriptor, a close.
pub data Output : Type 0 where
  print : Color → Bytes → Output
  write_fd : ℤ → Bytes → Output
  close_fd : ℤ → Output

-- The state of the log and what it put out, or a fault.
abbrev pub Logged : Type 0
Logged = Option (FastLog × List Output)

abbrev pub enoent : ℕ
enoent = 2

unfoldable pub initialize : LogEnv → FastLog → ℤ × FastLog
unfolding srs_get_log_level
initialize env l = elim env.config [
  | none ↦ (success, l)
  | some c ↦ (
    success,
    record l {
      log_to_file_tank = get_log_tank_file c;
      level = srs_get_log_level (get_log_level c);
    },
  )
]

unfoldable pub open_named : LogEnv → Bytes → FastLog → FastLog
open_named env filename l =
    let (fd, errno) = env.open_file filename in
    if empty filename
    then l
    else if eqb_ℤ fd (negsuc 0) && (errno == enoent)
    then record l { fd = env.create_file filename }
    else record l { fd = fd }

unfoldable pub open_log_file : LogEnv → FastLog → FastLog
unfolding open_named
open_log_file env l = elim env.config [ none ↦ l | some c ↦ open_named env (get_log_file_name c) l ]

-- The header's size where one was written, `none` where the clock failed.
unfoldable pub generate_header :
    Bool → Option Bytes → Bytes → LogEnv → FastLog → Option (Option ℤ × FastLog)
generate_header error tag level_name env l = elim env.usec_of_day [
  | none ↦ some (none, l)
  | some usec ↦ elim env.local_time [
    | none ↦ some (none, l)
    | some tm ↦
        let text = header_text error tag tm usec level_name env.pid env.context_id env.errno in
        elim (snprintf (pos 0) log_max_size text l.log_data) [
          | none ↦ none
          | some buf ↦ some (
            some (srs_min (pos (log_max_size - 1)) (pos (length text))),
            record l { log_data = buf },
          )
        ]
  ]
]

-- The line is the first `size` bytes of the buffer; a print stops at a zero byte.
unfoldable pub put_out : LogEnv → ℕ → ℕ → FastLog → FastLog × List Output
put_out env size level l =
    let l' = if ltb_ℤ l.fd (pos 0) then open_log_file env l else l in
    if not l.log_to_file_tank
    then (l, print (color_of level) (c_str (take size l.log_data)) ∷ [])
    else if ltb_ℤ (pos 0) l'.fd
    then (l', write_fd l'.fd (take size l'.log_data) ∷ [])
    else (l', [])

unfoldable pub write_log : LogEnv → ℤ → ℕ → FastLog → Logged
write_log env size level l =
    let size' = srs_min (pos (log_max_size - 1 - log_tail_size)) size in
    elim (store size' (b'\n' ∷ []) l.log_data) [
      | none ↦ none
      | some buf ↦ some (put_out env (to_size (size' +ℤ pos 1)) level (record l { log_data = buf }))
    ]

-- `vsnprintf(log_data + size, LOG_MAX_SIZE - size, ...)`: the new size and buffer. `none` for the
-- message is a format that fails, which returns -1.
unfoldable pub append_text : ℤ → Option Bytes → Bytes → Option (ℤ × Bytes)
append_text size none buf = some (size +ℤ negsuc 0, buf)
append_text size (some text) buf =
    elim (snprintf size (to_size (pos log_max_size -ℤ size)) text buf) [
      | none ↦ none
      | some buf' ↦ some (size +ℤ pos (length text), buf')
    ]

-- "add strerror() to error msg."
unfoldable pub append_errno : Bool → LogEnv → ℤ → Bytes → Option (ℤ × Bytes)
unfolding append_text
append_errno with_errno env size buf =
    if with_errno && not (env.errno == 0)
    then append_text size (some (codes "(" ++ (env.strerror env.errno ++ codes ")"))) buf
    else some (size, buf)

-- The bodies of the five methods, which differ in the level, its name, the errno in the header, and
-- the text of the errno at the end of an error.
unfoldable pub log_line :
    ℕ → Bytes → Bool → Bool → Option Bytes → Option Bytes → LogEnv → FastLog → Logged
log_line level name in_header with_errno tag message env l =
    if ltb level l.level then some (l, []) else (elim (generate_header in_header tag name env l) [
      | none ↦ none
      | some (none, l') ↦ some (l', [])
      | some (some size, l') ↦ elim (append_text size message l'.log_data) [
        | none ↦ none
        | some (size', buf) ↦ elim (append_errno with_errno env size' buf) [
          | none ↦ none
          | some (size'', buf') ↦ write_log env size'' level (record l' { log_data = buf' })
        ]
      ]
    ])

abbrev pub verbose : Option Bytes → Option Bytes → LogEnv → FastLog → Logged
verbose = log_line level_verbose (codes "verb") false false

abbrev pub info : Option Bytes → Option Bytes → LogEnv → FastLog → Logged
info = log_line level_info (codes "debug") false false

abbrev pub trace : Option Bytes → Option Bytes → LogEnv → FastLog → Logged
trace = log_line level_trace (codes "trace") false false

abbrev pub warn : Option Bytes → Option Bytes → LogEnv → FastLog → Logged
warn = log_line level_warn (codes "warn") true false

abbrev pub error : Option Bytes → Option Bytes → LogEnv → FastLog → Logged
error = log_line level_error (codes "error") true true

-- "if (fd > 0) close(fd)", then `open_log_file`.
unfoldable pub reopen : LogEnv → FastLog → FastLog × List Output
reopen env l = (open_log_file env l, if ltb_ℤ (pos 0) l.fd then close_fd l.fd ∷ [] else [])

unfoldable pub on_reload_log_tank : LogEnv → FastLog → ℤ × FastLog × List Output
on_reload_log_tank env l = elim env.config [
  | none ↦ (success, l, [])
  | some c ↦
      let l' = record l { log_to_file_tank = get_log_tank_file c } in
      let (l'', outs) = reopen env l' in
      if l.log_to_file_tank
      then (success, l', [])
      else if not (l'.log_to_file_tank)
      then (success, l', [])
      else (success, l'', outs)
]

unfoldable pub on_reload_log_level : LogEnv → FastLog → ℤ × FastLog
on_reload_log_level env l = elim env.config [
  | none ↦ (success, l)
  | some c ↦ (success, record l { level = srs_get_log_level (get_log_level c) })
]

unfoldable pub on_reload_log_file : LogEnv → FastLog → ℤ × FastLog × List Output
on_reload_log_file env l = elim env.config [
  | none ↦ (success, l, [])
  | some c ↦
      let (l', outs) = reopen env l in
      if not l.log_to_file_tank then (success, l, []) else (success, l', outs)
]
