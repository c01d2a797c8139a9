-- ===== src/Log/Sink/Over.antt =====
-- The log over a sink: what opening a file, putting out a line and a reload do to both.
use srslog.Base.{ℕ, ◌≡◌, ◌∙◌, ap, inl, inr, none, some, Option-cases, List, arith}
use srslog.Bytes.{Bytes}
use srslog.Config.{get_log_tank_file}
use srslog.Log.Line.{after, deliver}
use srslog.Log.{
  FastLog, LogEnv, Output, open_log_file, open_named, initialize, reopen, on_reload_log_tank,
  on_reload_log_level, on_reload_log_file,
}
use srslog.Log.Sink.{
  Sink, over, Call, initializes, reloads_tank, reloads_level, reloads_file, takes_file, opens_file,
  puts, sink_call, log_call,
}

open_log_file-over :
    (env : LogEnv) (s : Sink) (buf : Bytes)
    → open_log_file env (over s buf)
      ≡ over (elim env.config [ none ↦ s | some c ↦ takes_file env c s ]) buf
unfolding open_log_file open_named
open_log_file-over env s buf = ground arith

after-over :
    (env : LogEnv) (s : Sink) (buf buf' : Bytes)
    → record (after env (over s buf)) { log_data = buf' } ≡ over (opens_file env s) buf'
after-over env s buf buf' = ground (arith, open_log_file-over env s buf)

deliver-puts :
    (env : LogEnv) (level : ℕ) (s : Sink) (buf line : Bytes)
    → (opens_file env s, deliver env level (over s buf) line) ≡ puts env level line s
deliver-puts env level s buf line = ground (arith, open_log_file-over env s buf)

pub puts-line :
    (env : LogEnv) (level : ℕ) (s : Sink) (buf buf' line : Bytes)
    → ◌≡◌ {A = FastLog × List Output}
        (record (after env (over s buf)) { log_data = buf' }, deliver env level (over s buf) line)
        (over (puts env level line s).0 buf', (puts env level line s).1)
puts-line env level s buf buf' line =
    ap (λ l. (l, deliver env level (over s buf) line)) (after-over env s buf buf')
    ∙ ap (λ p. (over p.0 buf', p.1)) (deliver-puts env level s buf line)

abbrev pub Follows : Call → Type 0
Follows c =
    (s : Sink) (buf : Bytes)
    → log_call c (over s buf) ≡ some (over (sink_call c s).0 buf, (sink_call c s).1)

pub initialize-Follows : (env : LogEnv) → Follows (initializes env)
unfolding initialize
initialize-Follows env s buf = ground arith

pub reload_level-Follows : (env : LogEnv) → Follows (reloads_level env)
unfolding on_reload_log_level
reload_level-Follows env s buf = ground arith

pub reload_file-Follows : (env : LogEnv) → Follows (reloads_file env)
unfolding on_reload_log_file reopen
reload_file-Follows env s buf = ground (arith, open_log_file-over env s buf)

pub reload_tank-Follows : (env : LogEnv) → Follows (reloads_tank env)
unfolding on_reload_log_tank reopen
reload_tank-Follows env s buf = elim (Option-cases env.config) [
  | inl e ↦ ground (arith, e)
  | inr (c, e) ↦
      ground (arith, e, open_log_file-over env (record s { tank = get_log_tank_file c }) buf)
]
