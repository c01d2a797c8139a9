-- ===== src/Signal.antt =====
-- src/base/app_signal_manager.h and app_signal_manager.cpp: signals queued in a pipe and handed to
-- the server one at a time. The pipe is the list of the numbers written and not yet read.
pub mod Pipe
pub mod Order
pub mod Rounds
mod Tests
use srslog.Base.{
  length, ltb, ℕ, Bool, true, false, ◌||◌, Option, none, some, List, [], ◌∷◌, ◌++◌, ◌==◌,
  if◌then◌else◌,
}
use srslog.Base.Int.{ℤ, pos, negsuc, ltb_ℤ, eqb_ℤ}
use srslog.ErrorCode.{success, create_pipe}
use srslog.Server.{
  Server, Signalled, goes_on, exits, on_signal, signal_reload_no, sigint, sigusr2, sigterm,
}

pub record SignalManager : Type 0 where
  pub read_end : ℤ
  pub write_end : ℤ
  pub queue : List ℕ
  pub installed : List ℕ
  pub started : Bool
  pub read_stfd : Option ℕ

abbrev pub new_manager : SignalManager
new_manager = record {
  read_end = negsuc 0;
  write_end = negsuc 0;
  queue = [];
  installed = [];
  started = false;
  read_stfd = none;
}

-- What `pipe` returns with its two ends, and what starting the thread returns.
pub record SignalEnv : Type 0 where
  pub pipe : ℤ
  pub read_end : ℤ
  pub write_end : ℤ
  pub start_thread : ℤ

unfoldable pub start : SignalEnv → SignalManager → ℤ × SignalManager
start env m = if ltb_ℤ env.pipe (pos 0) then (create_pipe, m) else (
  env.start_thread,
  record m {
    read_end = env.read_end;
    write_end = env.write_end;
    installed = signal_reload_no ∷ sigterm ∷ sigint ∷ sigusr2 ∷ [];
    started = eqb_ℤ env.start_thread success;
  },
)

abbrev pub holds : ℕ → List ℕ → Bool
holds a [] = false
holds a (b ∷ bs) = b == a || holds a bs

-- What the handler does where the pipe has room.
unfoldable pub sig_catcher : ℕ → SignalManager → SignalManager
sig_catcher signo m = record m { queue = m.queue ++ signo ∷ [] }

-- `PIPE_BUF / sizeof(int)`, the signals that the pipe holds by app_signal_manager.h.
abbrev pub pipe_room : ℕ
pipe_room = 1024

-- A signal comes. One that is not installed does not reach the handler; `none` is the handler's
-- write to a full pipe, which blocks the process.
unfoldable pub catches : ℕ → SignalManager → Option SignalManager
unfolding sig_catcher
catches signo m =
    if holds signo m.installed
    then (if ltb (length m.queue) pipe_room then some (sig_catcher signo m) else none)
    else some m

-- It waits while the pipe is empty, or reads from a null handle, or has handed a number on.
pub data Cycled : Type 0 where
  waits : SignalManager → Cycled
  faults : Cycled
  handled : SignalManager → Signalled → Cycled

-- The read end is given to `st` in the first cycle.
unfoldable pub open_read : (ℤ → Option ℕ) → SignalManager → SignalManager
open_read st_netfd_open m = elim m.read_stfd [
  | none ↦ record m { read_stfd = st_netfd_open m.read_end }
  | some h ↦ m
]

-- `cycle` reads one number and hands it to the server.
unfoldable pub cycle : (ℤ → Option ℕ) → SignalManager → Server → Cycled
unfolding open_read
cycle st_netfd_open m s =
    let m' = open_read st_netfd_open m in
    elim m'.read_stfd [
      | none ↦ faults
      | some h ↦ elim m'.queue [
        | [] ↦ waits m'
        | signo ∷ rest ↦ handled (record m' { queue = rest }) (on_signal signo s)
      ]
    ]
