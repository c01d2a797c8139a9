-- ===== src/Server/Tests.antt =====
-- The server at fixed inputs, and the theorems there.
use srslog.Base.{none, ℕ, ◌+◌, ◌≡◌, refl, true, Option, some, List, [], ◌∷◌}
use srslog.Base.Int.{pos}
use srslog.ErrorCode.{success, success}
use srslog.Bytes.{codes, c_str, atoi}
use srslog.Clock.{Timeval, initial}
use srslog.Kbps.{Statistic, new_kbps}
use srslog.Config.{
  ConfigInfo, conf_listen, conf_max_connections, get_value, get_listen, get_max_connections,
}
use srslog.Kbps.{Kbps, set_io}
use srslog.Clock.{Clock, update_system_time_ms}
use srslog.Server.{initialize}
use srslog.Server.Manager.{Run}
use srslog.Server.Uncounted.{SilentServer, nothing_counted}
use srslog.Listener.{Listener, SocketEnv, rtmp_stream, base, listen, open_and_start}
use srslog.Server.{
  Server, new_server, free_listener, close_listeners, listen_base, listen_ports, AcceptEnv,
  accept_client,
}
use srslog.Server.Manager.{Call, accepts, removes, run, count, freed}
use srslog.Server.Clients.{begin, conns_conserved}
use srslog.Server.Accepting.{Accepted, cycle, cycles, closed}
use srslog.Server.Listening.{Relistened, listen_base-Relistened}

abbrev config : ConfigInfo
config = record {
  json = [];
  json_map = (conf_listen, codes "17644") ∷ (conf_max_connections, codes "2") ∷ [];
}

abbrev ticking : ℕ → Option Timeval
ticking n = some (record { tv_sec = pos (100 + n); tv_usec = pos 0 })

abbrev idle : ℕ → Statistic
idle p = record { recv_bytes = pos 0; send_bytes = pos 0 }

abbrev at_address : ℕ → AcceptEnv
at_address a = record { address = a; start = success }

abbrev started : Server
started = record new_server { signal_manager = true; kbps = some new_kbps }

abbrev history : List Call
history =
    accepts (at_address 7) base 1
    ∷ accepts (at_address 8) base 2
    ∷ accepts (at_address 9) base 3
    ∷ removes 7 idle
    ∷ removes 7 idle
    ∷ []

conns_conserved_example :
    let r = run ticking config (begin started initial) history in
    count 7 r.created ≡ count 7 r.server.conns + freed 7 r.events
conns_conserved_example = conns_conserved ticking config started initial history 7

abbrev working : SocketEnv
working = record {
  socket = pos 3;
  setsockopt = λ fd. pos 0;
  bind = λ fd port. pos 0;
  listen = λ fd backlog. pos 0;
  open_socket = λ fd. some 1;
  start_thread = success;
}

abbrev old_base : Listener
old_base = record { ltype = base; fd = pos 3; stfd = some 1; port = pos 17644; started = true }

abbrev old_rtmp : Listener
old_rtmp = record old_base { ltype = rtmp_stream; fd = pos 4 }

abbrev relistened : Server
relistened = record started { listeners = old_rtmp ∷ old_base ∷ [] }

listen_base-Relistened_example :
    Relistened config
      (record started { listeners = old_base ∷ old_rtmp ∷ [] })
      relistened
      (free_listener old_base ∷ [])
unfolding listen_base listen_ports close_listeners listen open_and_start get_listen get_value atoi
    c_str
listen_base-Relistened_example =
    listen_base-Relistened config (λ i. working)
      (record started { listeners = old_base ∷ old_rtmp ∷ [] }) relistened
      (free_listener old_base ∷ []) refl

abbrev arrivals : List Accepted
arrivals = some (21, at_address 4) ∷ none ∷ some (22, at_address 5) ∷ some (23, at_address 6) ∷ []

closes_one : closed (cycles config old_base arrivals started).1 ≡ 1
unfolding cycles cycle accept_client get_max_connections get_value atoi c_str
closes_one = refl

abbrev made_kbps : Kbps × Clock
made_kbps = set_io ticking none none idle new_kbps (update_system_time_ms ticking initial)

abbrev made_server : Server
made_server = record new_server { signal_manager = true; kbps = some made_kbps.0 }

abbrev calls : List Call
calls =
    accepts (record { address = 7; start = success }) base 1
    ∷ accepts (record { address = 8; start = success }) base 2
    ∷ removes 7 idle
    ∷ []

abbrev begun : Run
begun = record { server = made_server; clock = made_kbps.1; events = []; created = [] }

nothing_counted_example : SilentServer (run ticking config begun calls).server.kbps
unfolding initialize
nothing_counted_example =
    nothing_counted ticking config idle initial made_kbps.1 success made_server calls refl
