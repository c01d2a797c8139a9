-- ===== src/Descriptors/Reused.antt =====
-- What the second close of `~SrsListener` of src/base/app_listener.cpp does to a client that arrives
-- while the destructor waits for its thread.
use mathlib.Core.Path.{subst}
use srslog.Base.{ap, ℕ, ◌+◌, ◌≡◌, refl, true, false, Option, some, [], ◌∷◌, ◌++◌, length, arith}
use srslog.Base.Int.{leb_ℤ, pos, ◌<ℤ◌}
use srslog.Clock.{Timeval}
use srslog.Config.{ConfigInfo, get_max_connections}
use srslog.Listener.{Listener, base}
use srslog.Server.{AcceptEnv, accept_client, contains}
use srslog.Server.Manager.{contains-append}
use srslog.Descriptors.{
  Table, open_fd, close, Library, srs_close_stfd, delete_listener, release, Books, arrives, arrive,
  book,
}
use srslog.Descriptors.Closing.{over}
use srslog.Descriptors.Clients.{bit, uses, uses-append, with_handle, Accounted}

module _ (st : Library) (gettimeofday : ℕ → Option Timeval) (config : ConfigInfo)
    (untouched : Listener → Table → Table) (env : AcceptEnv) (h h' : ℕ) (l : Listener)
    (b : Books) where
  -- The books once the client has arrived, where the table was `t`.
  abbrev pub arrived : Table → Books
  arrived t = book st gettimeofday config untouched (record b { table = t }) (arrives env base h')

  abbrev pub deleted : Table
  deleted = delete_listener st (λ _ t. (arrived t).table) l b.table

  arrived_lem :
      (t : Table)
      → t (st.fileno h') ≡ false
      → contains env.address b.server.conns ≡ false
      → pos (length b.server.conns) <ℤ get_max_connections config
      → arrived t ≡ record {
        server = record (b.server) { conns = b.server.conns ++ env.address ∷ [] };
        clock = b.clock;
        handles = with_handle b.handles env.address h';
        table = open_fd (st.fileno h') t;
      }
  unfolding book arrive accept_client release
  arrived_lem t free absent room =
      let below : leb_ℤ (get_max_connections config) (pos (length b.server.conns)) ≡ false =
        ground (arith, room) in
      rw
        (
          free,
          absent,
          book,
          arrive,
          accept_client,
          below,
          contains-append env.address b.server.conns,
        )
        refl

  -- A listener that holds its descriptor, and whose thread was started, is deleted, as a reload of
  -- the ports does; while the destructor waits for the thread, a client arrives that is given the
  -- number of the listener's descriptor, which is free by then, at an address not in use and with
  -- room in the manager. The client is taken into the manager with the open descriptor, and the
  -- destructor then closes that: no account of the open descriptors holds any more.
  pub reused_client_closed :
      l.started ≡ true
      → l.stfd ≡ some h
      → st.fileno h ≡ l.fd
      → st.fileno h' ≡ l.fd
      → contains env.address b.server.conns ≡ false
      → pos (length b.server.conns) <ℤ get_max_connections config
      → let served = arrived (srs_close_stfd st l.stfd b.table).1 in
        (contains env.address served.server.conns ≡ true)
        × (served.handles env.address ≡ some h')
        × (served.table l.fd ≡ true)
        × (deleted l.fd ≡ false)
        × ((t₀ : Table) → ¬ (Accounted st t₀ (record served { table = deleted })))
  unfolding delete_listener srs_close_stfd close
  reused_client_closed running e f f' absent room =
      let closed = (srs_close_stfd st l.stfd b.table).1 in
      let free : closed (st.fileno h') ≡ false = ground (arith, e, f, f') in
      let now = arrived_lem closed free absent room in
      let gone : deleted l.fd ≡ false = ground (arith, running) in
      let own : (with_handle b.handles env.address h') env.address ≡ some h' = ground arith in
      (
        rw now (contains-append env.address b.server.conns),
        rw now own,
        rw now (ground (arith, f')),
        gone,
        λ t₀ acc.
            let held = with_handle b.handles env.address h' in
            let one : over st (held env.address) l.fd ≡ true = rw own (ground (arith, f')) in
            let account =
              subst
                (λ (x : Books).
                  bit (deleted l.fd) ≡ bit (t₀ l.fd) + uses st x.handles x.server.conns l.fd)
                now (acc l.fd) in
            let none_open : bit (deleted l.fd) ≡ 0 = ap bit gone in
            omega (
              arith,
              account,
              none_open,
              ap bit one,
              uses-append st held b.server.conns env.address l.fd,
            ),
      )
