-- ===== src/Log/Overflow.antt =====
-- The five methods from the call to the line: what they put out, and when they write outside the
-- buffer.
use srslog.Base.{
  ℕ, suc, ◌-◌, ◌≤◌, ◌<◌, ◌^◌, ◌≡◌, ◌≢◌, refl, sym, ◌∙◌, ap, inl, inr, Bool, true, false, Option,
  none, some, [], ◌∷◌, ◌++◌, arith, length, take, length-take, take-take, Bool-cases, ltb, ◌==◌,
  ==_iff,
}
use srslog.Base.Int.{ℤ, pos, negsuc, ◌-ℤ◌}
use srslog.Bytes.{Bytes, codes}
use srslog.Log.Buffer.{snprintf}
use srslog.Log.Header.{Tm, header_text}
use srslog.Log.Holds.{Holds, Holds-snprintf, store_past}
use srslog.Log.Line.{
  append_text-Holds, write_log-line, line_of, after, deliver, put_out-deliver, min-length,
}
use srslog.Log.{
  FastLog, LogEnv, Logged, append_text, append_errno, write_log, generate_header, log_line,
}

-- The text that an error adds for the errno.
abbrev pub errno_text : LogEnv → Bytes
errno_text env = codes "(" ++ (env.strerror env.errno ++ codes ")")

fresh_buffer : (buf : Bytes) → length buf ≡ 4096 → Holds [] buf
fresh_buffer buf h = record { rest = buf; split = refl; whole = h }

-- A call at which the clock works, on a log with its whole buffer and at a level that is logged.
pub record Runs (env : LogEnv) (l : FastLog) (level usec : ℕ) (tm : Tm) : Type 0 where
  pub day : env.usec_of_day ≡ some usec
  pub calendar : env.local_time ≡ some tm
  pub buffer : length l.log_data ≡ 4096
  pub enabled : l.level ≤ level

-- The first two parts of a line: the header, as much as the buffer takes, and the message.
abbrev pub start_of : Bytes → Bytes → Bytes
start_of header message = take 4095 header ++ message

generate_header-Holds :
    (ih : Bool) (tag : Option Bytes) (name : Bytes) (env : LogEnv) (l : FastLog) (level usec : ℕ)
    (tm : Tm)
    → Runs env l level usec tm
    → let header = header_text ih tag tm usec name env.pid env.context_id env.errno in
      (buf : Bytes) × (generate_header ih tag name env l
        ≡ some (some (pos (length (take 4095 header))), record l { log_data = buf }))
      × Holds (take 4095 header) buf
unfolding generate_header
generate_header-Holds ih tag name env l level usec tm r =
    let header = header_text ih tag tm usec name env.pid env.context_id env.errno in
    let (buf, e, h) =
      Holds-snprintf [] header l.log_data (omega arith) (fresh_buffer l.log_data r.buffer) in
    (
      buf,
      rw (generate_header, r.day, r.calendar, e, min-length 4095 header),
      record {
        rest = h.rest;
        split = h.split ∙ ap (λ u. u ++ h.rest) (sym (take-take 4095 4095 header (omega arith)));
        whole = h.whole;
      },
    )

append_errno_zero :
    (env : LogEnv) (size : ℤ) (buf : Bytes)
    → env.errno ≡ 0
    → append_errno true env size buf ≡ some (size, buf)
unfolding append_errno
append_errno_zero env size buf z =
    let zero_test : (env.errno == 0) ≡ true = (==_iff env.errno 0).1 z in rw zero_test

append_errno_set :
    (env : LogEnv) (size : ℤ) (buf : Bytes)
    → env.errno ≢ 0
    → append_errno true env size buf ≡ append_text size (some (errno_text env)) buf
unfolding append_errno
append_errno_set env size buf z = elim (Bool-cases (env.errno == 0)) [
  | inl e ↦ absurd (z ((==_iff env.errno 0).0 e))
  | inr e ↦ rw e
]

-- A negative number of bytes left is a huge `size_t`.
left_past : (at : ℕ) → 4096 < at → pos 4096 -ℤ pos at ≡ negsuc (at - 4097)
unfolding ◌-ℤ◌
left_past at h = ground arith

append_text_past :
    (at : ℕ) (text buf : Bytes)
    → 4096 < at
    → at < 2 ^ 31
    → length buf ≡ 4096
    → append_text (pos at) (some text) buf ≡ none
unfolding append_text snprintf
append_text_past at text buf past int whole =
    let k = 2 ^ 64 - 2 - (at - 4097) in
    let e : 2 ^ 64 - 1 - (at - 4097) ≡ suc k = omega arith in
    rw
      (append_text, left_past at past, e, store_past at (take k text ++ (0 ∷ [])) buf (omega arith))

passed : (a b : ℕ) → b ≤ a → ltb a b ≡ false
passed a b h = ground arith

module _ (level : ℕ) (name : Bytes) (ih : Bool) (tag : Option Bytes) (message : Bytes)
    (env : LogEnv) (l : FastLog) (usec : ℕ) (tm : Tm) where
  -- The start of the line of this call.
  abbrev pub start : Bytes
  start = start_of (header_text ih tag tm usec name env.pid env.context_id env.errno) message

  -- The call puts out the line of `text` and keeps the buffer whole.
  abbrev pub Delivers : Bool → Bytes → Type 0
  Delivers with_errno text =
      (buf : Bytes) × (log_line level name ih with_errno tag (some message) env l
        ≡ some (record (after env l) { log_data = buf }, deliver env level l (line_of text)))
      × (length buf ≡ 4096)

  finish :
      (with_errno : Bool) (text buf : Bytes)
      → log_line level name ih with_errno tag (some message) env l
        ≡ write_log env (pos (length text)) level (record l { log_data = buf })
      → Holds text buf
      → Delivers with_errno text
  finish with_errno text buf e h =
      let (buf', written, front, whole) =
        write_log-line env text level (record l { log_data = buf }) h in
      let put = put_out-deliver env level l buf' (line_of text) front in
      (buf', e ∙ written ∙ ap some put, whole)

  -- The body behind the message.
  continue : Bool → Bytes → Logged
  continue with_errno buf = elim (append_errno with_errno env (pos (length start)) buf) [
    | none ↦ none
    | some (size, buf') ↦ write_log env size level (record l { log_data = buf' })
  ]

  module _ (r : Runs env l level usec tm) where
    log_line-continue :
        (with_errno : Bool)
        → (buf : Bytes) × (log_line level name ih with_errno tag (some message) env l
            ≡ continue with_errno buf)
          × Holds start buf
    unfolding continue log_line
    log_line-continue with_errno =
        let header = header_text ih tag tm usec name env.pid env.context_id env.errno in
        let (buf, e, h) = generate_header-Holds ih tag name env l level usec tm r in
        let (buf', e', h') =
          append_text-Holds (take 4095 header) message buf (omega (arith, length-take 4095 header))
            h in
        let passes : ltb level l.level ≡ false = passed level l.level r.enabled in
        (buf', rw (log_line, passes, e, e'), h')

    -- A call of `verbose`, `info`, `trace` or `warn` at a working clock and an enabled level never
    -- writes outside the buffer, whatever the length of its message: it puts out the first 4094
    -- bytes of header and message and a new line, to the console or to the file's descriptor, and
    -- leaves a whole buffer.
    pub message_delivered : Delivers false start
    unfolding continue append_errno
    message_delivered = let (buf, e, h) = log_line-continue false in finish false start buf e h

    pub error_plain : env.errno ≡ 0 → Delivers true start
    unfolding continue
    error_plain z =
        let (buf, e, h) = log_line-continue true in
        finish true start buf (e ∙ rw (continue, append_errno_zero env (pos (length start)) buf z))
          h

    pub error_fits : env.errno ≢ 0 → length start ≤ 4096 → Delivers true (start ++ errno_text env)
    unfolding continue
    error_fits z fits =
        let (buf, e, h) = log_line-continue true in
        let (buf', e', h') = append_text-Holds start (errno_text env) buf fits h in
        finish true (start ++ errno_text env) buf'
          (e ∙ rw (continue, append_errno_set env (pos (length start)) buf z, e')) h'

    pub error_past :
        env.errno ≢ 0
        → 4096 < length start
        → length start < 2 ^ 31
        → log_line level name ih true tag (some message) env l ≡ none
    unfolding continue
    error_past z past int =
        let (buf, e, h) = log_line-continue true in
        e
        ∙ rw (
          continue,
          append_errno_set env (pos (length start)) buf z,
          append_text_past (length start) (errno_text env) buf past int h.whole,
        )
