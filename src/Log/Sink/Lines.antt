-- ===== src/Log/Sink/Lines.antt =====
-- One call of a method as the line of its severity.
use mathlib.Core.List.{append-nil}
use mathlib.Core.Path.{subst}
use mathlib.Core.Bool.{false≢true}
use srslog.Base.{
  ℕ, ◌≤◌, ◌≡◌, ◌≢◌, refl, sym, ◌∙◌, ap, inl, inr, Bool, true, false, Option, none, some, Bool-cases,
  List, [], ◌∷◌, ◌++◌, length, ltb, if◌then◌else◌, ◌==◌, ==_iff, not,
}
use srslog.Bytes.{Bytes, codes}
use srslog.Log.Header.{Tm, header_text}
use srslog.Log.Overflow.{Runs, Delivers, start_of, errno_text, message_delivered}
use srslog.Log.Overflow.{error_plain, error_fits}
use srslog.Log.{FastLog, LogEnv, generate_header, log_line}
use srslog.Log.Sink.{
  Severity, verbose_line, info_line, trace_line, warn_line, error_line, name_of, is_grave, Call,
  says, initializes, reloads_tank, reloads_level, reloads_file, level_of, text_of, log_call,
}

-- An error whose text would not fit behind header and message is left out.
abbrev pub Fits : Call → Type 0
Fits (says error_line tag message env) =
    env.errno ≢ 0
    → (usec : ℕ) (tm : Tm) → env.usec_of_day ≡ some usec
    → env.local_time ≡ some tm
    → length (
        start_of (header_text true tag tm usec (codes "error") env.pid env.context_id env.errno)
          message)
      ≤ 4096
Fits (says verbose_line tag message env) = Unit
Fits (says info_line tag message env) = Unit
Fits (says trace_line tag message env) = Unit
Fits (says warn_line tag message env) = Unit
Fits (initializes env) = Unit
Fits (reloads_tank env) = Unit
Fits (reloads_level env) = Unit
Fits (reloads_file env) = Unit

abbrev pub AllFit : List Call → Type 0
AllFit [] = Unit
AllFit (c ∷ cs) = Fits c × AllFit cs

-- One call of a method as the line of its severity.
pub says-line :
    (m : Severity) (tag : Option Bytes) (message : Bytes) (env : LogEnv) (l : FastLog)
    → log_call (says m tag message env) l
      ≡ log_line (level_of m) (name_of m) (is_grave m) (level_of m == 5) tag (some message) env l
says-line verbose_line tag message env l = refl
says-line info_line tag message env l = refl
says-line trace_line tag message env l = refl
says-line warn_line tag message env l = refl
says-line error_line tag message env l = refl

module _ (level : ℕ) (name : Bytes) (ih we : Bool) (tag : Option Bytes) (message : Bytes)
    (env : LogEnv) (l : FastLog) (enabled : ltb level l.level ≡ false) where
  pub log_line-no_day :
      env.usec_of_day ≡ none → log_line level name ih we tag (some message) env l ≡ some (l, [])
  unfolding log_line generate_header
  log_line-no_day e = rw (log_line, enabled, generate_header, e) refl

  pub log_line-no_calendar :
      (usec : ℕ)
      → env.usec_of_day ≡ some usec
      → env.local_time ≡ none
      → log_line level name ih we tag (some message) env l ≡ some (l, [])
  unfolding log_line generate_header
  log_line-no_calendar usec d e = rw (log_line, enabled, generate_header, d, e) refl

module _ (tag : Option Bytes) (message : Bytes) (env : LogEnv) (l : FastLog) (usec : ℕ)
    (tm : Tm) where
  -- A call that puts out the line of its severity.
  abbrev pub Speaks : Severity → Type 0
  Speaks m =
      Delivers (level_of m) (name_of m) (is_grave m) tag message env l usec tm (level_of m == 5)
        (text_of m tag message env usec tm)

  -- Below error the line is header and message.
  plain :
      (level : ℕ) (name : Bytes) (ih : Bool)
      → Runs env l level usec tm
      → let text =
          start_of (header_text ih tag tm usec name env.pid env.context_id env.errno) message in
        Delivers level name ih tag message env l usec tm false (text ++ [])
  plain level name ih r =
      let text =
        start_of (header_text ih tag tm usec name env.pid env.context_id env.errno) message in
      subst (Delivers level name ih tag message env l usec tm false) (sym (append-nil text))
        (message_delivered level name ih tag message env l usec tm r)

  error-Speaks : Runs env l 5 usec tm → Fits (says error_line tag message env) → Speaks error_line
  error-Speaks r f = elim (Bool-cases (env.errno == 0)) [
    | inl z ↦
        subst Errors (sym (ending z ∙ append-nil text)) (
          error_plain 5 (codes "error") true tag message env l usec tm r ((==_iff env.errno 0).0 z))
    | inr n ↦
        (let set : env.errno ≢ 0 = λ e. false≢true (sym n ∙ (==_iff env.errno 0).1 e) in
          subst Errors (sym (ending n)) (
            error_fits 5 (codes "error") true tag message env l usec tm r set
              (f set usec tm r.day r.calendar)))
  ]
    where
      text : Bytes
      text =
          start_of (header_text true tag tm usec (codes "error") env.pid env.context_id env.errno)
            message

      Errors : Bytes → Type 0
      Errors = Delivers 5 (codes "error") true tag message env l usec tm true

      ending :
          {b : Bool}
          → (env.errno == 0) ≡ b
          → text_of error_line tag message env usec tm
            ≡ text ++ (if not b then errno_text env else [])
      ending e = ap (λ b. text ++ (if not b then errno_text env else [])) e

  pub severity-Speaks :
      (m : Severity) → Runs env l (level_of m) usec tm → Fits (says m tag message env) → Speaks m
  severity-Speaks verbose_line r f = plain 1 (codes "verb") false r
  severity-Speaks info_line r f = plain 2 (codes "debug") false r
  severity-Speaks trace_line r f = plain 3 (codes "trace") false r
  severity-Speaks warn_line r f = plain 4 (codes "warn") true r
  severity-Speaks error_line r f = error-Speaks r f
