-- ===== src/Serving.antt =====
-- The process that serves: the threads of the listeners, of the connections and of the signals, and
-- the main cycle, which take turns on one server. A turn is what a thread does between two waits:
-- a round of `SrsListener::cycle` (src/base/app_listener.cpp), the `on_thread_stop` of a connection
-- (app_conn.cpp), a round of `SrsSignalManager::cycle` (app_signal_manager.cpp) and a pass of
-- `SrsServer::do_cycle` (app_server.cpp). A signal can come between any two turns.
pub mod Calls
pub mod Steps
pub mod Turns
pub mod Sound
pub mod Seen
pub mod Exit
pub mod Delivery
pub mod Clocks
pub mod Passes
pub mod Start
mod Tests
use srslog.Base.{
  ℕ, suc, ltb, ◌==◌, Bool, true, false, Option, none, some, List, [], ◌∷◌, get_elem?, if◌then◌else◌,
}
use srslog.Base.Int.{ℤ, pos, pos_part}
use srslog.Clock.{Timeval, Clock}
use srslog.Kbps.{Statistic}
use srslog.Config.{ConfigInfo}
use srslog.Listener.{Listener}
use srslog.Signal.{SignalManager, Cycled, waits, faults, handled, holds, sig_catcher}
use srslog.Signal
use srslog.Server.{Server, Signalled, AcceptEnv, goes_on, exits}
use srslog.Server
use srslog.Server.Cycle.{tick, max_ticks}
use srslog.Descriptors.{Table, Library, Books, arrives, leaves, book}

pub data Status : Type 0 where
  running faulted : Status
  exited : ℤ → Status

-- `pass` is the `i` of the main cycle.
pub record Serving : Type 0 where
  pub books : Books
  pub signals : SignalManager
  pub pass : ℕ
  pub status : Status

-- The thread of the i-th listener, with what `st_accept` gives it; the end of the thread of the
-- connection at an address; a signal; the thread of the signals; the main cycle.
pub data Turn : Type 0 where
  accepts : ℕ → Option (ℕ × AcceptEnv) → Turn
  ends : ℕ → (ℕ → Statistic) → Turn
  catches : ℕ → Turn
  reads_signal passes : Turn

-- No listener is deleted while the process serves.
abbrev pub untouched : Listener → Table → Table
untouched l t = t

module _ (st : Library) (st_netfd_open : ℤ → Option ℕ) (gettimeofday : ℕ → Option Timeval)
    (config : ConfigInfo) where
  abbrev pub accept : Listener → Option (ℕ × AcceptEnv) → Serving → Serving
  accept l none v = v
  accept l (some (h, env)) v = record v {
    books = book st gettimeofday config untouched v.books (arrives env l.ltype h);
  }

  -- A listener whose thread does not run accepts nobody.
  unfoldable pub accept_turn : ℕ → Option (ℕ × AcceptEnv) → Serving → Serving
  accept_turn i a v = elim (get_elem? v.books.server.listeners i) [
    | none ↦ v
    | some l ↦ if l.started then accept l a v else v
  ]

  unfoldable pub end_turn : ℕ → (ℕ → Statistic) → Serving → Serving
  end_turn a stats v = elim (Server.remove gettimeofday a stats v.books.server v.books.clock) [
    | none ↦ record v { status = faulted }
    | some _ ↦ record v { books = book st gettimeofday config untouched v.books (leaves a stats) }
  ]

  -- A signal that has no handler does not reach the program. The pipe is taken to have room.
  unfoldable pub catch : ℕ → Serving → Serving
  catch signo v =
      if holds signo v.signals.installed
      then record v { signals = sig_catcher signo v.signals }
      else v

  abbrev pub signalled : Cycled → Serving → Serving
  signalled (waits m) v = record v { signals = m }
  signalled faults v = record v { status = faulted }
  signalled (handled m (goes_on s)) v = record v {
    signals = m;
    books = record (v.books) { server = s };
  }
  signalled (handled m exits) v = record v { signals = m; status = exited (pos 0) }

  unfoldable pub signal_turn : Serving → Serving
  signal_turn v =
      if v.signals.started
      then signalled (Signal.cycle st_netfd_open v.signals v.books.server) v
      else v

  -- The pass behind a pass of the inner loop; at its end the outer loop starts it again.
  abbrev pub next_pass : ℕ → ℕ
  next_pass i = if ltb (suc i) (pos_part (max_ticks config)) then suc i else 0

  unfoldable pub pass_turn : Serving → Serving
  pass_turn v =
      let (s, c) = tick gettimeofday v.pass false (v.books.server, v.books.clock) in
      record v { books = record (v.books) { server = s; clock = c }; pass = next_pass v.pass }

  unfoldable pub turn : Turn → Serving → Serving
  turn (accepts i a) v = accept_turn i a v
  turn (ends a stats) v = end_turn a stats v
  turn (catches signo) v = catch signo v
  turn reads_signal v = signal_turn v
  turn passes v = pass_turn v

  -- A process that has ended takes no turn.
  unfoldable pub step : Turn → Serving → Serving
  step t v = elim v.status [ running ↦ turn t v | _ ↦ v ]

  unfoldable pub serve : List Turn → Serving → Serving
  serve [] v = v
  serve (t ∷ ts) v = serve ts (step t v)
