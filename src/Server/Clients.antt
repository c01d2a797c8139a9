-- ===== src/Server/Clients.antt =====
-- What the connection manager promises about its clients.
use srslog.Base.{◌↔◌, ℕ, ◌+◌, ◌≤◌, ◌≡◌, ◌⊎◌, length-append, Option, List, [], ◌∷◌, arith, length}
use srslog.Base.Int.{pos, pos_part, ◌≤ℤ◌}
use srslog.ErrorCode.{success}
use srslog.Clock.{Timeval, Clock}
use srslog.Config.{ConfigInfo, get_max_connections}
use srslog.Listener.{ListenerType, rtmp_stream, base}
use srslog.Server.{Server, AcceptEnv, close_client, accept_client}
use srslog.Server.Manager.{count, freed, Call, Run, run, run-Balanced, run-Bounded}

abbrev pub begin : Server → Clock → Run
begin s c = record { server = record s { conns = [] }; clock = c; events = []; created = [] }

module _ (gettimeofday : ℕ → Option Timeval) (config : ConfigInfo) (s : Server) (c : Clock)
    (calls : List Call) where
  -- After any history of accepted clients and removed connections, a server that began with no
  -- connection holds at most the configured maximum.
  pub conns_bounded :
      length (run gettimeofday config (begin s c) calls).server.conns
      ≤ pos_part (get_max_connections config)
  conns_bounded = run-Bounded gettimeofday config (begin s c) calls (omega arith)

  -- After any history of accepted clients and removed connections, no connection is lost or freed too
  -- often: one that was taken in k times, at the same address, stands in the manager or has been
  -- freed, together k times.
  pub conns_conserved :
      (a : ℕ)
      → let r = run gettimeofday config (begin s c) calls in
        count a r.created ≡ count a r.server.conns + freed a r.events
  conns_conserved a = run-Balanced gettimeofday config (begin s c) calls (λ b. omega arith) a

module _ (config : ConfigInfo) (env : AcceptEnv) (client : ℕ) (s : Server) where
  -- A client is closed at once exactly where the maximum is reached or its listener is an RTMP one,
  -- which this build does not serve; every other client, and only those, adds a connection. A closed
  -- client leaves the server as it was and is no error.
  pub accept_client_result :
      (t : ListenerType)
      → let (ret, s', events) = accept_client config env t client s in
        ((events ≡ close_client client ∷ [])
          ↔ ((get_max_connections config ≤ℤ pos (length s.conns)) ⊎ (t ≡ rtmp_stream)))
        × ((events ≡ []) ↔ (length s'.conns ≡ length s.conns + 1))
        × ((events ≡ []) ⊎ ((s' ≡ s) × (ret ≡ success)))
  unfolding accept_client
  accept_client_result rtmp_stream =
      ((ground arith, ground arith), (ground arith, ground arith), ground arith)
  accept_client_result base = (
    (ground arith, ground arith),
    (
      ground (arith, length-append s.conns (env.address ∷ [])),
      ground (arith, length-append s.conns (env.address ∷ [])),
    ),
    ground arith,
  )
