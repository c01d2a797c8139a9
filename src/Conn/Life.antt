-- ===== src/Conn/Life.antt =====
-- A connection with its thread in the server's manager, from `accept_client` on: what its thread
-- calls, and when the manager lets it go.
pub mod Lives
pub mod Once
pub mod Ends
pub mod Unstarted
use srslog.Base.{ℕ, suc, Bool, true, false, Option, none, some, List, [], ◌∷◌}
use srslog.Base.Int.{ℤ}
use srslog.Bytes.{Bytes}
use srslog.ErrorCode.{success}
use srslog.Clock.{Timeval, Clock}
use srslog.Kbps.{Statistic}
use srslog.Address.{Sockaddr}
use srslog.Context.{ThreadContext}
use srslog.Thread.{SrsThread, Place, System, system, start, wake, thread_step, self_of}
use srslog.Server.{Server, Event}
use srslog.Server
use srslog.Conn.{SrsBaseConn, Report, Cycled, new_conn, base_cycle}

pub record Client : Type 0 where
  pub system : System
  pub conn : SrsBaseConn
  pub server : Server
  pub clock : Clock
  pub reports : List Report
  pub faulted : Bool

-- A turn of the connection's thread, or of the one that is in `start`.
pub data Turn : Type 0 where
  thread_turn parent_turn : Turn

-- What the system answers to this connection, which stands in the manager as `address`.
module _ (inet_ntop : ℕ → Bytes → Option Bytes) (getpeername : ℕ → Option Sockaddr)
    (gettimeofday : ℕ → Option Timeval) (stats : ℕ → Statistic) (address : ℕ) where
  -- `cycle`, called by the thread.
  unfoldable pub conn_cycle : Client → ℤ × Client
  conn_cycle c =
      let s = c.system in
      let r = base_cycle inet_ntop getpeername (self_of s.thread) c.conn s.context s.thread in
      (
        r.ret,
        record c {
          system = record s { thread = r.thread; context = r.context };
          conn = r.conn;
          reports = r.report ∷ c.reports;
        },
      )

  -- `on_thread_stop`: `server->remove(this)`.
  unfoldable pub on_thread_stop : Client → Client
  on_thread_stop c = elim (Server.remove gettimeofday address stats c.server c.clock) [
    | none ↦ record c { faulted = true }
    | some (s, clock, events) ↦ record c { server = s; clock = clock }
  ]

  -- The callback that runs at the thread's place, and its code.
  unfoldable pub callback : Client → ℤ × Client
  unfolding conn_cycle on_thread_stop
  callback c = elim c.system.place [
    | Place.cycling ↦ conn_cycle c
    | Place.stopping ↦ (success, on_thread_stop c)
    | _ ↦ (success, c)
  ]

  unfoldable pub take_turn : Client → Turn → Client
  unfolding callback
  take_turn c thread_turn =
      let (ret, c') = callback c in record c' { system = thread_step ret c'.system }
  take_turn c parent_turn = record c { system = wake c.system }

  unfoldable pub run_turns : Client → List Turn → Client
  run_turns c [] = c
  run_turns c (t ∷ ts) = run_turns (take_turn c t) ts

-- Behind the call of `start` in `accept_client`: the connection is in the manager, and its thread has
-- been created, with the number `self`.
unfoldable pub accepted : ℕ → ℕ → ThreadContext → Server → Clock → Client
accepted client self context s clock = record {
  system = start (some self) (system false context);
  conn = new_conn client;
  server = s;
  clock = clock;
  reports = [];
  faulted = false;
}
