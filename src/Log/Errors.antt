-- ===== src/Log/Errors.antt =====
-- The error method as a whole: when it stays inside the buffer, and what it then puts out.
use mathlib.Core.List.{append-nil}
use mathlib.Core.Path.{subst}
use mathlib.Core.Bool.{false≢true}
use srslog.Base.{
  if◌then◌else◌, [], sym, ap, ◌∙◌, ℕ, ◌<◌, ◌≤◌, ◌^◌, ◌≡◌, ◌≢◌, ◌↔◌, inl, inr, true, Option, none,
  some, ◌++◌, length, Bool-cases, ltb, ltb→lt, ltb_false→le, ◌==◌, ==_iff,
}
use srslog.Bytes.{Bytes, codes}
use srslog.Log.Header.{Tm}
use srslog.Log.{FastLog, LogEnv, error}
use srslog.Log.Level.{level_error}
use srslog.Log.Overflow.{Runs, start, Delivers, errno_text, error_plain, error_fits, error_past}

module _ (tag : Option Bytes) (message : Bytes) (env : LogEnv) (l : FastLog) (usec : ℕ)
    (tm : Tm) where
  -- The header and the message of an error.
  abbrev pub error_start : Bytes
  error_start = start level_error (codes "error") true tag message env l usec tm

  -- An error that puts out the line of `text`.
  abbrev pub Errors : Bytes → Type 0
  Errors text = Delivers level_error (codes "error") true tag message env l usec tm true text

  module _ (r : Runs env l level_error usec tm) where
    Errors-plain : env.errno ≡ 0 → Errors error_start
    Errors-plain z = error_plain level_error (codes "error") true tag message env l usec tm r z

    Errors-fit : env.errno ≢ 0 → length error_start ≤ 4096 → Errors (error_start ++ errno_text env)
    Errors-fit z h = error_fits level_error (codes "error") true tag message env l usec tm r z h

    -- At a working clock, where header and message are at most 4096 bytes, `error` puts out header,
    -- message and, if the errno is set, its text in brackets, cut to 4094 bytes, and keeps the
    -- buffer whole.
    pub error_delivered :
        length error_start ≤ 4096
        → Errors (error_start ++ (if env.errno == 0 then [] else errno_text env))
    error_delivered h = elim (Bool-cases (env.errno == 0)) [
      | inl zero ↦ subst Errors (sym (plain zero)) (Errors-plain ((==_iff env.errno 0).0 zero))
      | inr set ↦
          subst Errors (sym (ap (λ t. error_start ++ (if t then [] else errno_text env)) set))
            (Errors-fit (λ e. false≢true (sym set ∙ (==_iff env.errno 0).1 e)) h)
    ]
      where
        plain :
            (env.errno == 0) ≡ true
            → error_start ++ (if env.errno == 0 then [] else errno_text env) ≡ error_start
        plain zero =
            ap (λ t. error_start ++ (if t then [] else errno_text env)) zero
            ∙ append-nil error_start

    none≢delivers : (text : Bytes) → Errors text → error tag (some message) env l ≢ none
    none≢delivers text (l', e, w) n = cc

    -- At a working clock and below 2 ^ 31 bytes, `error` writes outside its buffer exactly when
    -- the errno is set and header and message together are longer than 4096 bytes.
    pub error_overflows_iff :
        length error_start < 2 ^ 31
        → (error tag (some message) env l ≡ none) ↔ ((env.errno ≢ 0) × (4096 < length error_start))
    error_overflows_iff int = (
      overflows,
      λ h. error_past level_error (codes "error") true tag message env l usec tm r h.0 h.1 int,
    )
      where
        set_errno : error tag (some message) env l ≡ none → env.errno ≢ 0
        set_errno n z = none≢delivers error_start (Errors-plain z) n

        overflows :
            error tag (some message) env l ≡ none → (env.errno ≢ 0) × (4096 < length error_start)
        overflows n = elim (Bool-cases (ltb 4096 (length error_start))) [
          | inl past ↦ (set_errno n, ltb→lt 4096 (length error_start) past)
          | inr fits ↦ absurd (
              none≢delivers (error_start ++ errno_text env)
                (Errors-fit (set_errno n) (ltb_false→le 4096 (length error_start) fits)) n)
        ]
