-- ===== src/Log/Threads.antt =====
-- Which thread wrote a line.
use mathlib.Core.Option.{some-injective}
use mathlib.Core.List.{append_assoc}
use srslog.Base.{
  ◌+◌, false, ℕ, ◌-◌, ◌≤◌, ◌≡◌, ◌≢◌, refl, sym, ap, ◌∙◌, Bool, true, Option, none, some, List, [],
  ◌∷◌, ◌++◌, arith, length, take, take_all, take-append, get_elem?, if◌then◌else◌,
}
use srslog.Base.Int.{ℤ, pos, pos_part, ◌<ℤ◌}
use srslog.Bytes.{Bytes, atoi}
use srslog.Bytes.Decimal.{atoi-decimal}
use srslog.Context.{int_max, ThreadContext, new_context, get_id}
use srslog.Context.Distinct
use srslog.Context.Distinct.{id_of}
use srslog.Log.{FastLog, LogEnv, Output, write_fd}
use srslog.Log.Header.{Tm, header_text}
use srslog.Log.Line.{line_of, after, deliver}
use srslog.Log.Overflow.{Runs}
use srslog.Log.Fields.{fields, fields-header_text, is_free}
use srslog.Log.Sink.{
  Severity, verbose_line, info_line, trace_line, warn_line, error_line, level_of, name_of, is_grave,
  text_of, says, log_call,
}
use srslog.Log.Sink.Lines.{Fits, says-line, severity-Speaks}
use srslog.Log.Macros.{log_from}

-- The id of the thread in a line: the fourth field of its header.
abbrev pub thread_of : Bool → Bytes → Option ℤ
thread_of grave line = elim (fields (if grave then 5 else 4) line) [
  | none ↦ none
  | some (texts, rest) ↦ elim (get_elem? texts 3) [ none ↦ none | some t ↦ some (atoi t) ]
]

thread_of-header_text :
    (error : Bool) (tm : Tm) (usec : ℕ) (name : Bytes) (pid context_id errno : ℕ) (rest : Bytes)
    → is_free name ≡ true
    → thread_of error (header_text error none tm usec name pid context_id errno ++ rest)
      ≡ some (pos context_id)
thread_of-header_text error tm usec name pid context_id errno rest h =
    rw (thread_of, fields-header_text error tm usec name pid context_id errno rest h)
      (ap some (atoi-decimal context_id))

name_of_free : (m : Severity) → is_free (name_of m) ≡ true
name_of_free verbose_line = refl
name_of_free info_line = refl
name_of_free trace_line = refl
name_of_free warn_line = refl
name_of_free error_line = refl

-- The header of a line by a macro.
abbrev pub header_of : Severity → LogEnv → ℕ → Tm → Bytes
header_of m env usec tm =
    header_text (is_grave m) none tm usec (name_of m) env.pid env.context_id env.errno

-- A header that a line holds whole stands at its start.
line_of-header :
    (header message tail : Bytes)
    → length header ≤ 4094
    → line_of ((take 4095 header ++ message) ++ tail)
      ≡ header ++ (take (4094 - length header) (message ++ tail) ++ (b'\n' ∷ []))
line_of-header header message tail short =
    let whole : take 4095 header ≡ header = take_all 4095 header (omega arith) in
    let front : take 4094 header ≡ header = take_all 4094 header short in
    rw (whole, append_assoc header message tail, take-append 4094 header (message ++ tail), front)
      (append_assoc header (take (4094 - length header) (message ++ tail)) (b'\n' ∷ []))

thread_of-line :
    (m : Severity) (message : Bytes) (env : LogEnv) (usec : ℕ) (tm : Tm)
    → length (header_of m env usec tm) ≤ 4094
    → thread_of (is_grave m) (line_of (text_of m none message env usec tm))
      ≡ some (pos env.context_id)
thread_of-line m message env usec tm short =
    ap (thread_of (is_grave m)) (line_of-header (header_of m env usec tm) message _ short)
    ∙ thread_of-header_text (is_grave m) tm usec (name_of m) env.pid env.context_id env.errno _
        (name_of_free m)

-- A thread that logs at a level that is logged, by a working clock and into a file, with a header
-- that a line holds.
pub record Logs (m : Severity) (message : Bytes) (env : LogEnv) (l : FastLog) (id : ℕ)
    : Type 0 where
  pub usec : ℕ
  pub tm : Tm
  pub runs : Runs (record env { context_id = id }) l (level_of m) usec tm
  pub fits : Fits (says m none message (record env { context_id = id }))
  pub short : length (header_of m (record env { context_id = id }) usec tm) ≤ 4094
  pub to_file : l.log_to_file_tank ≡ true
  pub open_fd : pos 0 <ℤ l.fd

-- What the macro of a severity does in a thread: it writes a line that names the thread.
pub record Signs (m : Severity) (self : ℕ) (message : Bytes) (env : LogEnv) (c : ThreadContext)
    (l : FastLog) (line : Bytes) : Type 0 where
  pub after : FastLog
  pub written :
      log_from m self message env c l ≡ some ((get_id self c).1, after, write_fd l.fd line ∷ [])
  pub signed : thread_of (is_grave m) line ≡ some (pos (get_id self c).0)

deliver-file :
    (env : LogEnv) (level : ℕ) (l : FastLog) (line : Bytes)
    → l.log_to_file_tank ≡ true
    → pos 0 <ℤ l.fd
    → deliver env level l line ≡ write_fd l.fd line ∷ []
deliver-file env level l line tank open_fd = ground arith

log_from_lem :
    (m : Severity) (self : ℕ) (message : Bytes) (env : LogEnv) (c : ThreadContext) (l l' : FastLog)
    (outs : List Output)
    → log_call (says m none message (record env { context_id = (get_id self c).0 })) l
      ≡ some (l', outs)
    → log_from m self message env c l ≡ some ((get_id self c).1, l', outs)
unfolding log_from
log_from_lem m self message env c l l' outs e = rw (log_from, e) refl

log_from-Signs :
    (m : Severity) (self : ℕ) (message : Bytes) (env : LogEnv) (c : ThreadContext) (l : FastLog)
    → Logs m message env l (get_id self c).0
    → (line : Bytes) × Signs m self message env c l line
log_from-Signs m self message env c l h =
    let env' = record env { context_id = (get_id self c).0 } in
    let line = line_of (text_of m none message env' h.usec h.tm) in
    let (buf, e, whole) = severity-Speaks none message env' l h.usec h.tm m h.runs h.fits in
    let l' : FastLog = record (after env' l) { log_data = buf } in
    (
      line,
      record {
        after = l';
        written = log_from_lem m self message env c l l' (write_fd l.fd line ∷ []) (
            says-line m none message env' l
            ∙ e
            ∙ ap (λ outs. some (l', outs))
                (deliver-file env' (level_of m) l line h.to_file h.open_fd));
        signed = thread_of-line m message env' h.usec h.tm h.short;
      },
    )

-- Whatever calls of the thread context came before, as long as the ids fit an `int`: none has
-- overflowed, and the lines that two threads log by the macros name different threads in their
-- headers, if one of the two threads has an id.
pub lines_tell_threads :
    (cs : List Distinct.Call) (self other : ℕ) (m m' : Severity) (message message' : Bytes)
    (env env' : LogEnv) (l l' : FastLog)
    → let c = Distinct.run new_context cs in
      self ≢ other
      → 100 + Distinct.generated cs ≤ int_max
      → id_of c self ≢ 0
      → Logs m message env l (get_id self c).0
      → Logs m' message' env' l' (get_id other c).0
      → (line line' : Bytes) × (c.overflowed ≡ false)
        × Signs m self message env c l line
        × Signs m' other message' env' c l' line'
        × (thread_of (is_grave m) line ≢ thread_of (is_grave m') line')
lines_tell_threads cs self other m m' message message' env env' l l' ne room has h h' =
    let c = Distinct.run new_context cs in
    let d = Distinct.run-IsDistinct new_context cs Distinct.new_context-IsDistinct in
    let (line, s) = log_from-Signs m self message env c l h in
    let (line', s') = log_from-Signs m' other message' env' c l' h' in
    let apart : id_of c self ≢ id_of c other = d.apart self other ne has in
    (
      line,
      line',
      (Distinct.run-Counted new_context cs).in_range room,
      s,
      s',
      λ e. apart (
          sym (Distinct.get_id-id_of self c)
          ∙ ap pos_part (some-injective _ _ (sym s.signed ∙ e ∙ s'.signed))
          ∙ Distinct.get_id-id_of other c),
    )
