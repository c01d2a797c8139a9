-- ===== src/Descriptors.antt =====
-- The open descriptors of the process: `srs_close_stfd` of src/base/app_st.cpp and the destructors
-- of a listener, a connection, the signal manager, the log and the server, with what the server's
-- events do to the table. The table says of each number whether it is open.
pub mod Closing
pub mod Destroying
pub mod Clients
pub mod StaleLog
pub mod Reused
mod Tests
use srslog.Base.{ℕ, ◌==◌, Bool, true, false, ◌||◌, Option, none, some, List, [], ◌∷◌, if◌then◌else◌}
use srslog.Base.Int.{ℤ, pos, negsuc, ltb_ℤ, eqb_ℤ}
use srslog.Clock.{Timeval, Clock}
use srslog.Kbps.{Statistic}
use srslog.Config.{ConfigInfo}
use srslog.Listener.{ListenerType, Listener}
use srslog.Signal.{SignalManager}
use srslog.Log.{FastLog}
use srslog.Thread.{System, stop, joins}
use srslog.Conn.{SrsBaseConn}
use srslog.Server.{
  Server, Event, free_listener, free_conn, close_client, close_pid_file, contains, AcceptEnv,
  accept_client, destroy,
}
use srslog.Server

abbrev pub Table : Type 0
Table = ℤ → Bool

-- The system gives out a number; it takes one back.
abbrev pub open_fd : ℤ → Table → Table
open_fd fd t d = if eqb_ℤ d fd then true else t d

unfoldable pub close : ℤ → Table → Table
close fd t d = if eqb_ℤ d fd then false else t d

-- `st_netfd_fileno` and `st_netfd_close`, for the handle of a descriptor.
pub record Library : Type 0 where
  pub fileno : ℕ → ℤ
  pub netfd_close : ℕ → Table → Table

module _ (st : Library) where
  unfoldable pub srs_close_stfd : Option ℕ → Table → Option ℕ × Table
  srs_close_stfd none t = (none, t)
  srs_close_stfd (some h) t = (none, close (st.fileno h) (st.netfd_close h t))

  -- `~SrsListener`. A thread that was started is waited for; `meanwhile` is what the other threads do.
  unfoldable pub delete_listener : (Listener → Table → Table) → Listener → Table → Table
  unfolding srs_close_stfd
  delete_listener meanwhile l t =
      let (_, closed) = srs_close_stfd l.stfd t in
      let stopped = if l.started then meanwhile l closed else closed in close l.fd stopped

  -- `~SrsConnection` with its `stop`, and `~SrsThread`: the thread is not joinable, nobody waits.
  unfoldable pub delete_conn : Option ℕ → System → Table → System × Table
  unfolding srs_close_stfd
  delete_conn stfd s t = let (_, closed) = srs_close_stfd stfd t in (joins (stop s), closed)

  -- `~SrsSignalManager`; `meanwhile` is what the other threads do while its thread is waited for.
  unfoldable pub delete_manager : (Table → Table) → SignalManager → Table → Table
  unfolding srs_close_stfd
  delete_manager meanwhile m t =
      let stopped = if m.started then meanwhile t else t in
      let (_, closed) = srs_close_stfd m.read_stfd stopped in
      let closed' = if ltb_ℤ (pos 0) m.read_end then close m.read_end closed else closed in
      if ltb_ℤ (pos 0) m.write_end then close m.write_end closed' else closed'

  -- What the events of the server do; `handles` has the handle of the connection at an address.
  unfoldable pub release : (Listener → Table → Table) → (ℕ → Option ℕ) → List Event → Table → Table
  unfolding srs_close_stfd
  release meanwhile handles [] t = t
  release meanwhile handles (free_listener l ∷ es) t =
      release meanwhile handles es (delete_listener meanwhile l t)
  release meanwhile handles (free_conn a ∷ es) t =
      release meanwhile handles es (srs_close_stfd (handles a) t).1
  release meanwhile handles (close_client h ∷ es) t =
      release meanwhile handles es (srs_close_stfd (some h) t).1
  release meanwhile handles (close_pid_file fd ∷ es) t = release meanwhile handles es (close fd t)

  -- `destroy` with its signal manager.
  unfoldable pub destroy_all :
      (Listener → Table → Table)
      → (Table → Table)
      → (ℕ → Option ℕ)
      → SignalManager
      → Server
      → Table
      → Server × Table
  unfolding release delete_manager
  destroy_all meanwhile meanwhile' handles m s t =
      let (s', es) = destroy s in
      let released = release meanwhile handles es t in
      if s.signal_manager then (s', delete_manager meanwhile' m released) else (s', released)

-- `~SrsFastLog`.
unfoldable pub delete_log : FastLog → Table → FastLog × Table
delete_log g t = if ltb_ℤ (pos 0) g.fd then (record g { fd = negsuc 0 }, close g.fd t) else (g, t)

-- The server with its clients' descriptors.
pub record Books : Type 0 where
  pub server : Server
  pub clock : Clock
  pub handles : ℕ → Option ℕ
  pub table : Table

-- A client arrives on a number that was free, and its object would stand where none stands; a thread
-- ends and its connection is removed.
pub data Call : Type 0 where
  arrives : AcceptEnv → ListenerType → ℕ → Call
  leaves : ℕ → (ℕ → Statistic) → Call

module _ (st : Library) (gettimeofday : ℕ → Option Timeval) (config : ConfigInfo)
    (meanwhile : Listener → Table → Table) where
  unfoldable pub arrive : AcceptEnv → ListenerType → ℕ → Books → Books
  unfolding release
  arrive env t h b =
      let (_, s, es) = accept_client config env t h b.server in
      let handles =
        if contains env.address s.conns
        then (λ a. if a == env.address then some h else b.handles a)
        else b.handles in
      record {
        server = s;
        clock = b.clock;
        handles = handles;
        table = release st meanwhile handles es (open_fd (st.fileno h) b.table);
      }

  unfoldable pub leave : ℕ → (ℕ → Statistic) → Books → Books
  unfolding release
  leave a stats b = elim (Server.remove gettimeofday a stats b.server b.clock) [
    | none ↦ b
    | some (s, c, es) ↦ record {
      server = s;
      clock = c;
      handles = b.handles;
      table = release st meanwhile b.handles es b.table;
    }
  ]

  -- The system gives out no number that is open, and the allocator no address that is in use.
  unfoldable pub book : Books → Call → Books
  unfolding arrive leave
  book b (arrives env t h) =
      if b.table (st.fileno h) || contains env.address b.server.conns then b else arrive env t h b
  book b (leaves a stats) = leave a stats b

  unfoldable pub books : Books → List Call → Books
  books b [] = b
  books b (c ∷ cs) = books (book b c) cs
