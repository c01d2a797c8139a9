-- ===== src/Conn/Life/Unstarted.antt =====
-- A connection whose thread `start` could not create: `accept_client` of src/base/app_server.cpp has
-- put it in the manager by then.
use srslog.Base.{ℕ, false, Option, none, List}
use srslog.Bytes.{Bytes}
use srslog.ErrorCode.{st_create_cycle_thread}
use srslog.Clock.{Timeval, Clock}
use srslog.Kbps.{Statistic}
use srslog.Address.{Sockaddr}
use srslog.Config.{ConfigInfo}
use srslog.Context.{ThreadContext}
use srslog.Listener.{Listener, base}
use srslog.Thread.{system, start}
use srslog.Server.{Server, AcceptEnv, accept_client}
use srslog.Conn.Life.{Client, Turn, run_turns, accepted}

-- Behind the failed `start`.
abbrev pub unstarted : ℕ → ThreadContext → Server → Clock → Client
unstarted client context s clock = record (accepted client 0 context s clock) {
  system = start none (system false context);
}

abbrev failing : ℕ → AcceptEnv
failing address = record { address = address; start = st_create_cycle_thread }

module _ (inet_ntop : ℕ → Bytes → Option Bytes) (getpeername : ℕ → Option Sockaddr)
    (gettimeofday : ℕ → Option Timeval) (stats : ℕ → Statistic) (config : ConfigInfo)
    (address client : ℕ) (context : ThreadContext) (s : Server) (clock : Clock)
    (ts : List Turn) where
  -- What the server and the connection are at the end of a schedule.
  abbrev pub stuck : Client
  stuck =
      run_turns inet_ntop getpeername gettimeofday stats address
        (unstarted client context (accept_client config (failing address) base client s).1 clock) ts
