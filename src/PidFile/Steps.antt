-- ===== src/PidFile/Steps.antt =====
-- `acquire_pid_file` and `on_reload_pid` one system call at a time, for several processes that use
-- one pid file.
use srslog.Base.{
  ℕ, zero, suc, ◌==◌, ◌≡◌, ◌||◌, Bool, false, Option, none, some, List, [], ◌∷◌, ◌++◌, length, take,
  drop, arith, if◌then◌else◌,
}
use srslog.Base.Int.{ℤ, pos, negsuc, pos_part, ltb_ℤ, eqb_ℤ}
use srslog.ErrorCode.{
  success, pid_acquire, pid_already_running, pid_lock, pid_truncate_file, pid_write_file,
  pid_get_file_info, pid_set_file_info,
}
use srslog.Bytes.{Bytes, decimal}
use srslog.PidFile.{
  PidEnv, Effect, truncated, wrote, close_on_exec, closed, eagain, eacces, acquire_pid_file,
  write_pid,
}

-- The system call that a process is at, with the new descriptor and the server's `pid_fd`; then the
-- end of the method, or no process.
pub data Stage : Type 0 where
  gone : Stage
  closing : ℤ → Stage
  opening : ℤ → Stage
  locking truncating writing getting setting : ℤ → ℤ → Stage
  acquired : ℤ → Stage
  failed : ℤ → ℤ → Stage

-- What the method does with the result of the call and the errno behind it; `pid` is the process.
unfoldable pub advance : ℕ → Stage → ℤ → ℕ → Stage
advance pid gone r errno = gone
advance pid (closing pid_fd) r errno = opening (negsuc 0)
advance pid (opening pid_fd) r errno =
    if ltb_ℤ r (pos 0) then failed pid_acquire pid_fd else locking r pid_fd
advance pid (locking fd pid_fd) r errno =
    if ltb_ℤ r (pos 0)
    then (if errno == eacces || errno == eagain
        then failed pid_already_running pid_fd
        else failed pid_lock pid_fd)
    else truncating fd pid_fd
advance pid (truncating fd pid_fd) r errno =
    if ltb_ℤ r (pos 0) then failed pid_truncate_file pid_fd else writing fd pid_fd
advance pid (writing fd pid_fd) r errno =
    if eqb_ℤ r (pos (length (decimal pid))) then getting fd pid_fd else failed pid_write_file pid_fd
advance pid (getting fd pid_fd) r errno =
    if ltb_ℤ r (pos 0) then failed pid_get_file_info pid_fd else setting fd pid_fd
advance pid (setting fd pid_fd) r errno =
    if ltb_ℤ r (pos 0) then failed pid_set_file_info pid_fd else acquired fd
advance pid (acquired fd) r errno = acquired fd
advance pid (failed code pid_fd) r errno = failed code pid_fd

-- `on_reload_pid` of a process behind an earlier call.
unfoldable pub reload : Stage → Stage
reload (acquired fd) = if ltb_ℤ (pos 0) fd then closing fd else opening fd
reload (failed code pid_fd) = if ltb_ℤ (pos 0) pid_fd then closing pid_fd else opening pid_fd
reload stage = stage

-- The pid file: its text, and the process that holds the write lock.
pub record File : Type 0 where
  pub text : Bytes
  pub owner : Option ℕ

abbrev pub is_owner : ℕ → Option ℕ → Bool
is_owner pid none = false
is_owner pid (some p) = p == pid

-- A process that ends or closes a descriptor of the file gives its lock up.
abbrev pub release : ℕ → File → File
release pid f = if is_owner pid f.owner then record f { owner = none } else f

-- Bytes at the start of a text.
abbrev pub overwrite : Bytes → Bytes → Bytes
overwrite s text = s ++ drop (length s) text

-- What a call with its result does to the file.
unfoldable pub touch : ℕ → Stage → ℤ → File → File
touch pid (closing pid_fd) r f = release pid f
touch pid (locking fd pid_fd) r f = if ltb_ℤ r (pos 0) then f else record f { owner = some pid }
touch pid (truncating fd pid_fd) r f = if ltb_ℤ r (pos 0) then f else record f { text = [] }
touch pid (writing fd pid_fd) r f = record f {
  text = overwrite (take (pos_part r) (decimal pid)) f.text;
}
touch pid gone r f = f
touch pid (opening pid_fd) r f = f
touch pid (getting fd pid_fd) r f = f
touch pid (setting fd pid_fd) r f = f
touch pid (acquired fd) r f = f
touch pid (failed code pid_fd) r f = f

-- The system's answers of one call of `acquire_pid_file`, stage by stage.
abbrev pub answer : PidEnv → Stage → ℤ
answer env (opening pid_fd) = env.open_fd
answer env (locking fd pid_fd) = env.set_lock
answer env (truncating fd pid_fd) = env.truncate
answer env (writing fd pid_fd) = env.write_count
answer env (getting fd pid_fd) = env.get_flags
answer env (setting fd pid_fd) = env.set_flags
answer env (closing pid_fd) = pos 0
answer env gone = pos 0
answer env (acquired fd) = pos 0
answer env (failed code pid_fd) = pos 0

-- Some calls of one process that nobody disturbs.
abbrev pub finish : PidEnv → ℕ → Stage × File → Stage × File
finish env zero s = s
finish env (suc n) (stage, f) =
    let r = answer env stage in
    finish env n (advance env.getpid stage r env.lock_errno, touch env.getpid stage r f)

-- What a list of effects makes of the file's text.
abbrev pub text_after : List Effect → Bytes → Bytes
text_after [] text = text
text_after (truncated fd ∷ es) text = text_after es []
text_after (wrote fd s ∷ es) text = text_after es (overwrite s text)
text_after (close_on_exec fd ∷ es) text = text_after es text
text_after (closed fd ∷ es) text = text_after es text

-- The end of a call: the code and the server's `pid_fd`.
abbrev pub ended : ℤ × ℤ → Stage
ended (code, pid_fd) = if eqb_ℤ code success then acquired pid_fd else failed code pid_fd

-- Undisturbed, the six system calls one after another are `acquire_pid_file`: they come to the same
-- code and descriptor, and leave the same text in the file.
pub finish-acquire_pid_file :
    (env : PidEnv) (pid_fd : ℤ) (f : File)
    → let (code, fd, effects) = acquire_pid_file env pid_fd in
      let (stage, f') = finish env 6 (opening pid_fd, f) in
      (stage ≡ ended (code, fd)) × (f'.text ≡ text_after effects f.text)
unfolding acquire_pid_file write_pid advance touch
finish-acquire_pid_file env pid_fd f = ground arith
