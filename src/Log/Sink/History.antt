-- ===== src/Log/Sink/History.antt =====
-- Any history of a log against its sink.
use mathlib.Core.Path.{subst}
use srslog.Base.{
  ℕ, ◌≡◌, refl, ◌∙◌, ap, inl, inr, true, false, Option, none, some, Option-cases, Bool-cases, List,
  [], ◌∷◌, ◌++◌, arith, length, ltb, ltb→lt, ltb_false→le, ◌==◌,
}
use srslog.Bytes.{Bytes}
use srslog.Log.Header.{Tm}
use srslog.Log.Line.{line_of}
use srslog.Log.Overflow.{Runs}
use srslog.Log.Reload.{log_line_disabled}
use srslog.Log.{FastLog, LogEnv, Logged, Output, log_line}
use srslog.Log.Sink.{
  Sink, over, Severity, name_of, is_grave, Call, says, initializes, reloads_tank, reloads_level,
  reloads_file, level_of, text_of, puts, sink_call, sink_run, log_call, log_run,
}
use srslog.Log.Sink.Over.{
  puts-line, initialize-Follows, reload_tank-Follows, reload_level-Follows, reload_file-Follows,
}
use srslog.Log.Sink.Lines.{
  Fits, AllFit, says-line, log_line-no_day, log_line-no_calendar, severity-Speaks,
}

-- The sink's view of a result: the log that a sink and some whole buffer make, and its output.
abbrev pub Shows : Sink × List Output → Logged → Type 0
Shows (s, outs) r = (buf : Bytes) × (r ≡ some (over s buf, outs)) × (length buf ≡ 4096)

-- What the sink does with a message, by what the clock gives.
module _ (m : Severity) (tag : Option Bytes) (message : Bytes) (env : LogEnv) (s : Sink) where
  sink_below : ltb (level_of m) s.level ≡ true → (s, []) ≡ sink_call (says m tag message env) s
  sink_below below = ground (arith, below)

  sink_no_day :
      ltb (level_of m) s.level ≡ false
      → env.usec_of_day ≡ none
      → (s, []) ≡ sink_call (says m tag message env) s
  sink_no_day enabled d = ground (arith, enabled, d)

  sink_no_calendar :
      (usec : ℕ)
      → ltb (level_of m) s.level ≡ false
      → env.usec_of_day ≡ some usec
      → env.local_time ≡ none
      → (s, []) ≡ sink_call (says m tag message env) s
  sink_no_calendar usec enabled d t = ground (arith, enabled, d, t)

  sink_line :
      (usec : ℕ) (tm : Tm)
      → ltb (level_of m) s.level ≡ false
      → env.usec_of_day ≡ some usec
      → env.local_time ≡ some tm
      → puts env (level_of m) (line_of (text_of m tag message env usec tm)) s
        ≡ sink_call (says m tag message env) s
  sink_line usec tm enabled d t = ground (arith, enabled, d, t)

module _ (m : Severity) (tag : Option Bytes) (message : Bytes) (env : LogEnv) (s : Sink)
    (buf : Bytes) (whole : length buf ≡ 4096) where
  abbrev SinkShows : Sink × List Output → Type 0
  SinkShows p = Shows p (log_call (says m tag message env) (over s buf))

  quiet :
      log_line
          (level_of m)
          (name_of m)
          (is_grave m)
          (level_of m == 5)
          tag
          (some message)
          env
          (over s buf)
        ≡ some (over s buf, [])
      → SinkShows (s, [])
  quiet e = (buf, says-line m tag message env (over s buf) ∙ e, whole)

  speaks :
      (usec : ℕ) (tm : Tm)
      → Runs env (over s buf) (level_of m) usec tm
      → Fits (says m tag message env)
      → SinkShows (puts env (level_of m) (line_of (text_of m tag message env usec tm)) s)
  speaks usec tm r f =
      let (buf', e, h') = severity-Speaks tag message env (over s buf) usec tm m r f in
      (
        buf',
        says-line m tag message env (over s buf)
            ∙ e
            ∙ ap some (
                puts-line env (level_of m) s buf buf'
                  (line_of (text_of m tag message env usec tm))),
        h',
      )

  enabled_Shows :
      ltb (level_of m) s.level ≡ false
      → Fits (says m tag message env)
      → SinkShows (sink_call (says m tag message env) s)
  enabled_Shows enabled f = elim (Option-cases env.usec_of_day) [
    | inl d ↦ subst SinkShows (sink_no_day m tag message env s enabled d) (
        quiet (
          log_line-no_day (level_of m) (name_of m) (is_grave m) (level_of m == 5) tag message env
            (over s buf) enabled d))
    | inr (usec, d) ↦ elim (Option-cases env.local_time) [
      | inl t ↦ subst SinkShows (sink_no_calendar m tag message env s usec enabled d t) (
          quiet (
            log_line-no_calendar (level_of m) (name_of m) (is_grave m) (level_of m == 5) tag message
              env (over s buf) enabled usec d t))
      | inr (tm, t) ↦ subst SinkShows (sink_line m tag message env s usec tm enabled d t) (
          speaks usec tm
            (record {
              day = d;
              calendar = t;
              buffer = whole;
              enabled = ltb_false→le (level_of m) s.level enabled;
            })
            f)
    ]
  ]

  says-Shows : Fits (says m tag message env) → SinkShows (sink_call (says m tag message env) s)
  says-Shows f = elim (Bool-cases (ltb (level_of m) s.level)) [
    | inl below ↦ subst SinkShows (sink_below m tag message env s below) (
        quiet (
          log_line_disabled (level_of m) (name_of m) (is_grave m) (level_of m == 5) tag
            (some message) env (over s buf) (ltb→lt (level_of m) s.level below)))
    | inr enabled ↦ enabled_Shows enabled f
  ]

call-Shows :
    (c : Call) (s : Sink) (buf : Bytes)
    → length buf ≡ 4096
    → Fits c
    → Shows (sink_call c s) (log_call c (over s buf))
call-Shows (says m tag message env) s buf h f = says-Shows m tag message env s buf h f
call-Shows (initializes env) s buf h f = (buf, initialize-Follows env s buf, h)
call-Shows (reloads_tank env) s buf h f = (buf, reload_tank-Follows env s buf, h)
call-Shows (reloads_level env) s buf h f = (buf, reload_level-Follows env s buf, h)
call-Shows (reloads_file env) s buf h f = (buf, reload_file-Follows env s buf, h)

run-step :
    (c : Call) (cs : List Call) (l : FastLog) {l' l'' : FastLog} {outs outs' : List Output}
    → log_call c l ≡ some (l', outs)
    → log_run cs l' ≡ some (l'', outs')
    → log_run (c ∷ cs) l ≡ some (l'', outs ++ outs')
run-step c cs l {l'} {l''} {outs} {outs'} e e' = rw (log_run, e, e') refl

-- However a log is initialized, written to and reloaded, in any order, at clocks that work or
-- fail: if no error is too long for the text of its errno, nothing is written outside the buffer,
-- and the log's level, file and output are those of a log that has no buffer and puts out every
-- enabled line as a whole: header, message and the text of an error's errno, cut to 4094 bytes, and
-- a new line. No line depends on what the buffer held before.
pub log_run-Shows :
    (cs : List Call) (s : Sink) (buf : Bytes)
    → length buf ≡ 4096
    → AllFit cs
    → Shows (sink_run cs s) (log_run cs (over s buf))
log_run-Shows [] s buf h f = (buf, refl, h)
log_run-Shows (c ∷ cs) s buf h f =
    let (buf', e, h') = call-Shows c s buf h f.0 in
    let (buf'', e', h'') = log_run-Shows cs (sink_call c s).0 buf' h' f.1 in
    (buf'', run-step c cs (over s buf) e e', h'')
