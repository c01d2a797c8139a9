-- ===== src/Log/Line.antt =====
-- The line that a call puts out, from the text that was formatted into the buffer.
use srslog.Base.{
  ℕ, ◌+◌, ◌-◌, ◌≤◌, ◌≡◌, ◌∙◌, ap, inl, inr, some, List, [], ◌∷◌, ◌++◌, arith, length, take, drop,
  length-append, length-take, length-drop, take-length_append, if◌then◌else◌, Bool-cases, ltb,
  ltb→lt, ltb_false→le, not,
}
use srslog.Base.Int.{ℤ, pos, ◌-ℤ◌, ◌+ℤ◌, srs_min, ltb_ℤ}
use srslog.Bytes.{Bytes, c_str}
use srslog.Log.Buffer.{store}
use srslog.Log.Holds.{Holds, Holds-snprintf, Holds-full, snprintf-zero, Holds-cut, store_behind}
use srslog.Log.{
  FastLog, LogEnv, Output, print, write_fd, append_text, write_log, put_out, open_log_file,
}
use srslog.Log.Level.{color_of}

pub sub-pos : (a b : ℕ) → b ≤ a → pos a -ℤ pos b ≡ pos (a - b)
unfolding ◌-ℤ◌
sub-pos a b h = ground arith

add-pos : (a b : ℕ) → pos a +ℤ pos b ≡ pos (a + b)
unfolding ◌+ℤ◌
add-pos a b = ground arith

-- A text that overflows nothing so far takes another behind it.
pub append_text-Holds :
    (s text buf : Bytes)
    → length s ≤ 4096
    → Holds s buf
    → (buf' : Bytes) × (append_text (pos (length s)) (some text) buf
        ≡ some (pos (length (s ++ text)), buf'))
      × Holds (s ++ text) buf'
unfolding append_text
append_text-Holds s text buf h b = elim (Bool-cases (ltb (length s) 4096)) [
  | inl room ↦
      let (buf', e, held) =
        Holds-snprintf s text buf (omega (arith, ltb→lt (length s) 4096 room)) b in
      (
        buf',
        rw (
          append_text,
          sub-pos 4096 (length s) h,
          e,
          add-pos (length s) (length text),
          length-append s text,
        ),
        held,
      )
  | inr full ↦
      let none_left : 4096 - length s ≡ 0 = omega (arith, ltb_false→le (length s) 4096 full) in
      (
        buf,
        rw (
          append_text,
          sub-pos 4096 (length s) h,
          none_left,
          snprintf-zero (pos (length s)) text buf,
          add-pos (length s) (length text),
          length-append s text,
        ),
        Holds-full s text buf (omega (arith, ltb_false→le (length s) 4096 full)) b,
      )
]

pub min-length : (n : ℕ) (s : Bytes) → srs_min (pos n) (pos (length s)) ≡ pos (length (take n s))
unfolding srs_min
min-length n s = rw (length-take n s) (ground arith)

-- The text of a line: what fits before the new line.
abbrev pub line_of : Bytes → Bytes
line_of text = take 4094 text ++ (b'\n' ∷ [])

pub write_log-line :
    (env : LogEnv) (text : Bytes) (level : ℕ) (l : FastLog)
    → Holds text l.log_data
    → (buf : Bytes) × (write_log env (pos (length text)) level l
        ≡ some (put_out env (length (line_of text)) level (record l { log_data = buf })))
      × (take (length (line_of text)) buf ≡ line_of text)
      × (length buf ≡ 4096)
unfolding write_log
write_log-line env text level l b =
    let (rest, e, sized) = Holds-cut text l.log_data b in
    let front = take 4094 text in
    let tail = b'\n' ∷ [] in
    let bound = length-take 4094 text in
    let stored = store_behind front tail rest (omega (arith, bound)) in
    let buf = (front ++ tail) ++ drop 1 rest in
    (
      buf,
      rw (
        write_log,
        min-length 4094 text,
        ap (store (pos (length front)) tail) e ∙ stored,
        min-length 4094 text,
        add-pos (length front) 1,
        length-append front tail,
      ),
      take-length_append (front ++ tail) (drop 1 rest),
      omega (
        arith,
        bound,
        length-append (front ++ tail) (drop 1 rest),
        length-append front tail,
        length-drop 1 rest,
      ),
    )

-- The descriptor that a line goes to: the log's own, or the one that opening the file gives.
abbrev pub target_fd : LogEnv → FastLog → ℤ
target_fd env l = if ltb_ℤ l.fd (pos 0) then (open_log_file env l).fd else l.fd

-- What a line becomes outside.
abbrev pub deliver : LogEnv → ℕ → FastLog → Bytes → List Output
deliver env level l line =
    if not l.log_to_file_tank
    then print (color_of level) (c_str line) ∷ []
    else if ltb_ℤ (pos 0) (target_fd env l)
    then write_fd (target_fd env l) line ∷ []
    else []

open_log_file-log_data :
    (env : LogEnv) (l : FastLog) (buf : Bytes)
    → open_log_file env (record l { log_data = buf })
      ≡ record (open_log_file env l) { log_data = buf }
unfolding open_log_file
open_log_file-log_data env l buf = ground arith

-- The log behind a line: it has opened its file if it writes to one and had no descriptor.
abbrev pub after : LogEnv → FastLog → FastLog
after env l =
    if not l.log_to_file_tank then l else if ltb_ℤ l.fd (pos 0) then open_log_file env l else l

pub put_out-deliver :
    (env : LogEnv) (level : ℕ) (l : FastLog) (buf line : Bytes)
    → take (length line) buf ≡ line
    → put_out env (length line) level (record l { log_data = buf })
      ≡ (record (after env l) { log_data = buf }, deliver env level l line)
unfolding put_out
put_out-deliver env level l buf line e =
    rw (put_out, open_log_file-log_data env l buf, e) (ground arith)
