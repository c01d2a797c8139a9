-- ===== src/PidFile.antt =====
-- `SrsServer::acquire_pid_file` and `on_reload_pid` of src/base/app_server.cpp. The answers of the system are the
-- argument `env`; what the call does to the system is the list of its effects.
pub mod Acquired
pub mod Steps
pub mod World
pub mod Fits
pub mod Exclusive
mod Tests
use srslog.Base.{ℕ, Bool, ◌||◌, List, [], ◌∷◌, ◌++◌, ◌==◌, length, take, if◌then◌else◌}
use srslog.Base.Int.{ℤ, pos, negsuc, pos_part, ltb_ℤ, eqb_ℤ}
use srslog.ErrorCode.{
  success, pid_acquire, pid_already_running, pid_lock, pid_truncate_file, pid_write_file,
  pid_get_file_info, pid_set_file_info,
}
use srslog.Bytes.{Bytes, decimal}

pub record PidEnv : Type 0 where
  pub open_fd : ℤ
  pub set_lock : ℤ
  pub lock_errno : ℕ
  pub truncate : ℤ
  pub getpid : ℕ
  pub write_count : ℤ
  pub get_flags : ℤ
  pub set_flags : ℤ

-- The file's text is changed; the descriptor is closed when a child starts; it is closed.
pub data Effect : Type 0 where
  truncated : ℤ → Effect
  wrote : ℤ → Bytes → Effect
  close_on_exec : ℤ → Effect
  closed : ℤ → Effect

abbrev pub eagain : ℕ
eagain = 11

abbrev pub eacces : ℕ
eacces = 13

-- From the write on, with the file locked and its text empty: the code, the server's `pid_fd`, the
-- effects.
unfoldable pub write_pid : PidEnv → ℤ → ℤ × ℤ × List Effect
write_pid env pid_fd =
    let text = decimal env.getpid in
    let fd = env.open_fd in
    let done = truncated fd ∷ wrote fd (take (pos_part env.write_count) text) ∷ [] in
    if eqb_ℤ env.write_count (pos (length text))
    then (if ltb_ℤ env.get_flags (pos 0)
        then (pid_get_file_info, pid_fd, done)
        else if ltb_ℤ env.set_flags (pos 0)
        then (pid_set_file_info, pid_fd, done)
        else (success, fd, done ++ close_on_exec fd ∷ []))
    else (pid_write_file, pid_fd, done)

unfoldable pub acquire_pid_file : PidEnv → ℤ → ℤ × ℤ × List Effect
acquire_pid_file env pid_fd =
    if ltb_ℤ env.open_fd (pos 0)
    then (pid_acquire, pid_fd, [])
    else if ltb_ℤ env.set_lock (pos 0)
    then (if env.lock_errno == eacces || env.lock_errno == eagain
        then (pid_already_running, pid_fd, [])
        else (pid_lock, pid_fd, []))
    else if ltb_ℤ env.truncate (pos 0)
    then (pid_truncate_file, pid_fd, [])
    else write_pid env pid_fd

-- `SrsServer::on_reload_pid`.
unfoldable pub on_reload_pid : PidEnv → ℤ → ℤ × ℤ × List Effect
on_reload_pid env pid_fd =
    if ltb_ℤ (pos 0) pid_fd
    then (let (ret, fd, effects) = acquire_pid_file env (negsuc 0) in
        (ret, fd, closed pid_fd ∷ effects))
    else acquire_pid_file env pid_fd
