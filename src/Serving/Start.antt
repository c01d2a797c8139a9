-- ===== src/Serving/Start.antt =====
-- From the command line to any moment of the process that serves.
use mathlib.Core.Path.{subst}
use srslog.Base.{ℕ, ◌+◌, ◌≤◌, ◌≡◌, ◌≢◌, sym, ap, ◌∙◌, Option, none, List, [], length, arith}
use srslog.Base.Int.{ℤ, pos, pos_part, ◌≤ℤ◌}
use srslog.Bytes.{Bytes}
use srslog.Clock.{Timeval}
use srslog.Config.{ConfigInfo, get_max_connections}
use srslog.Config.Json.{CJson}
use srslog.Server.{Server}
use srslog.Startup.{StartEnv, Process, serves, main}
use srslog.Startup.Main.{main-Served}
use srslog.Descriptors.{Table, Library}
use srslog.Descriptors.Closing.{KeepsOthers}
use srslog.Descriptors.Clients.{bit, uses}
use srslog.Serving.{Serving, running, faulted, Turn, serve}
use srslog.Serving.Sound.{Sound, serve-Sound}

-- The process at the start of its main cycle, with the descriptors that are open then.
abbrev pub begin : Process → Table → Serving
begin q t = record {
  books = record { server = q.server; clock = q.clock; handles = λ a. none; table = t };
  signals = q.signals;
  pass = 0;
  status = running;
}

module _ (st : Library) (keeps : KeepsOthers st) (st_netfd_open : ℤ → Option ℕ)
    (gettimeofday : ℕ → Option Timeval) (cjson : CJson) (env : StartEnv) where
  begin-Sound :
      (args : List Bytes) (p q : Process) (t : Table)
      → main cjson env args p ≡ serves q
      → p.server.conns ≡ []
      → st_netfd_open env.signal.read_end ≢ none
      → Sound st st_netfd_open q.config t (begin q t)
  begin-Sound args p q t h empty opens =
      let m = main-Served cjson env args p q h in
      let server = m.started.listening.others in
      let clients : q.server.conns ≡ [] = ap (λ (s : Server). s.conns) server ∙ m.clients ∙ empty in
      record {
        alive = running_alive;
        bounded = rw clients (omega arith);
        accounted = λ d. rw clients (omega arith);
        counting = λ z. m.counting (sym (ap (λ (s : Server). s.kbps) server) ∙ z);
        opens = λ z. opens (ap st_netfd_open (sym m.started.pipe) ∙ z);
      }
    where
      running_alive : running ≢ faulted
      running_alive e = cc

  -- From a server without connections, where `st` takes the read end of the pipe and its close leaves
  -- other descriptors alone: when `main` has come to serve, then whatever turns the threads of the
  -- process take, nothing fails an assertion or uses a null pointer, the connections stay within
  -- max_connections and within the threads of the library, and a descriptor is open as it was before
  -- the first client or because one connection has it.
  pub main_serves_soundly :
      (args : List Bytes) (p q : Process) (t : Table) (ts : List Turn)
      → main cjson env args p ≡ serves q
      → p.server.conns ≡ []
      → st_netfd_open env.signal.read_end ≢ none
      → let v = serve st st_netfd_open gettimeofday q.config ts (begin q t) in
        (v.status ≢ faulted)
        × (length v.books.server.conns ≤ pos_part (get_max_connections q.config))
        × (length v.books.server.conns ≤ 32756)
        × ((d : ℤ)
            → bit (v.books.table d) ≡ bit (t d) + uses st v.books.handles v.books.server.conns d)
  main_serves_soundly args p q t ts h empty opens =
      let m = main-Served cjson env args p q h in
      let s =
        serve-Sound st keeps st_netfd_open gettimeofday q.config t ts (begin q t)
          (begin-Sound args p q t h empty opens) in
      let few =
        subst (λ (c : ConfigInfo). get_max_connections c ≤ℤ pos 32756) (sym m.started.config)
          m.started.threads in
      (s.alive, s.bounded, within _ _ s.bounded few, s.accounted)
    where
      within : (n : ℕ) (z : ℤ) → n ≤ pos_part z → z ≤ℤ pos 32756 → n ≤ 32756
      within n z h k = ground arith
