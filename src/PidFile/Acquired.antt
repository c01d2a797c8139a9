-- ===== src/PidFile/Acquired.antt =====
-- When the server holds its pid file, and what a failure leaves behind.
use srslog.Base.{◌≡◌, ◌≢◌, ◌↔◌, ◌⊎◌, List, [], ◌∷◌, arith, length, take, take_all, if◌then◌else◌}
use srslog.Base.Int.{ℤ, pos, negsuc, pos_part, ◌≤ℤ◌, ◌<ℤ◌, eqb_ℤ}
use srslog.ErrorCode.{success}
use srslog.Bytes.{Bytes, decimal, atoi}
use srslog.Bytes.Decimal.{atoi-decimal}
use srslog.PidFile.{
  PidEnv, Effect, truncated, wrote, close_on_exec, closed, write_pid, acquire_pid_file,
  on_reload_pid,
}

-- Every system call of `acquire_pid_file` does what is asked.
pub record AllSucceed (env : PidEnv) : Type 0 where
  pub opens : pos 0 ≤ℤ env.open_fd
  pub locks : pos 0 ≤ℤ env.set_lock
  pub truncates : pos 0 ≤ℤ env.truncate
  pub writes : env.write_count ≡ pos (length (decimal env.getpid))
  pub gets : pos 0 ≤ℤ env.get_flags
  pub sets : pos 0 ≤ℤ env.set_flags

succeeds : (env : PidEnv) (pid_fd : ℤ) → (acquire_pid_file env pid_fd).0 ≡ success → AllSucceed env
unfolding acquire_pid_file write_pid
succeeds env pid_fd h = ground arith

-- The pid file is acquired exactly if every system call succeeds.
pub acquire_pid_file_succeeds_iff :
    (env : PidEnv) (pid_fd : ℤ) → ((acquire_pid_file env pid_fd).0 ≡ success) ↔ AllSucceed env
unfolding acquire_pid_file write_pid
acquire_pid_file_succeeds_iff env pid_fd = (succeeds env pid_fd, λ a. ground arith)

-- A success keeps the descriptor that was opened, and leaves in the file, emptied before, a text
-- that reads back as the process's own id; the descriptor is marked to close when a child starts.
pub acquire_pid_file_text :
    (env : PidEnv) (pid_fd : ℤ)
    → (acquire_pid_file env pid_fd).0 ≡ success
    → (text : Bytes) × (acquire_pid_file env pid_fd ≡ (
      success,
      env.open_fd,
      truncated env.open_fd ∷ wrote env.open_fd text ∷ close_on_exec env.open_fd ∷ [],
    ))
      × (atoi text ≡ pos env.getpid)
unfolding acquire_pid_file write_pid
acquire_pid_file_text env pid_fd h =
    let a = succeeds env pid_fd h in
    let all : take (pos_part env.write_count) (decimal env.getpid) ≡ decimal env.getpid =
      rw a.writes (take_all (length (decimal env.getpid)) (decimal env.getpid) (omega arith)) in
    (decimal env.getpid, ground (arith, all), atoi-decimal env.getpid)

abbrev pub IsClosed : ℤ → List Effect → Type 0
IsClosed fd [] = ⊥
IsClosed fd (truncated f ∷ es) = IsClosed fd es
IsClosed fd (wrote f s ∷ es) = IsClosed fd es
IsClosed fd (close_on_exec f ∷ es) = IsClosed fd es
IsClosed fd (closed f ∷ es) = (f ≡ fd) ⊎ IsClosed fd es

-- A failure behind a successful open, a pid file locked by a running server for instance, neither
-- keeps the new descriptor nor closes it.
pub acquire_pid_file_leaks :
    (env : PidEnv) (pid_fd : ℤ)
    → pos 0 ≤ℤ env.open_fd
    → (acquire_pid_file env pid_fd).0 ≢ success
    → ((acquire_pid_file env pid_fd).1 ≡ pid_fd)
      × ¬ IsClosed env.open_fd (acquire_pid_file env pid_fd).2
unfolding acquire_pid_file write_pid
acquire_pid_file_leaks env pid_fd o h = (ground arith, λ c. ground arith)

-- Reloading closes the old pid file first, so that after a failure the server holds none.
pub on_reload_pid_result :
    (env : PidEnv) (pid_fd : ℤ)
    → pos 0 <ℤ pid_fd
    → IsClosed pid_fd (on_reload_pid env pid_fd).2
      × ((on_reload_pid env pid_fd).1
          ≡ (if eqb_ℤ (on_reload_pid env pid_fd).0 success then env.open_fd else negsuc 0))
unfolding on_reload_pid acquire_pid_file write_pid
on_reload_pid_result env pid_fd h = (ground arith, ground arith)
