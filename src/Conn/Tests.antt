-- ===== src/Conn/Tests.antt =====
-- A connection at fixed schedules.
use srslog.Base.{ℕ, ◌≡◌, ◌≢◌, refl, true, false, Option, none, some, List, [], ◌∷◌, drop, arith}
use srslog.Base.Int.{pos}
use srslog.Bytes.{Bytes, codes}
use srslog.Clock.{Timeval, initial}
use srslog.Kbps.{Statistic, new_kbps}
use srslog.Context.{new_context, generate_id, get_id, find, assign}
use srslog.Address.{Sockaddr}
use srslog.Thread.{exited, thread_step, wake, start}
use srslog.Server.{Server, new_server, contains, erase}
use srslog.ErrorCode.{success}
use srslog.Config.{ConfigInfo, conf_max_connections}
use srslog.Server.Accepting.{Accepted}
use srslog.Conn.Pointers
use srslog.Conn.Pointers.{
  Store, new_base_conn, delete_base_conn, pointer_cycle, server_get_recv_timeout,
  server_get_send_timeout, charge_get_recv_bytes, charge_get_send_bytes, new_base_conn-cycled,
}
use srslog.Conn.Life.{Turn, thread_turn, parent_turn, run_turns, take_turn, accepted, callback}
use srslog.Conn.Life.Lives.{lifetime, conns_at, to_come}
use srslog.Conn.Life.Once.{connection_lives}
use srslog.Conn.Life.Ends.{connection_ends}

abbrev ntop : ℕ → Bytes → Option Bytes
ntop family host = some host

abbrev peer : ℕ → Option Sockaddr
peer fd = some (record { family = 2; host = codes "10.0.0.7" })

abbrev ticking : ℕ → Option Timeval
ticking n = some (record { tv_sec = pos 100; tv_usec = pos 0 })

abbrev idle : ℕ → Statistic
idle p = record { recv_bytes = pos 0; send_bytes = pos 0 }

abbrev two_conns : Server
two_conns = record new_server { conns = 7 ∷ 8 ∷ []; signal_manager = true; kbps = some new_kbps }

abbrev opening : List Turn
opening = thread_turn ∷ thread_turn ∷ parent_turn ∷ thread_turn ∷ []

abbrev closing : List Turn
closing =
    thread_turn ∷ thread_turn ∷ parent_turn ∷ thread_turn ∷ thread_turn ∷ thread_turn ∷ thread_turn
    ∷ []

some_ne_none : some new_kbps ≢ none
some_ne_none e = cc

connection_lives_example :
    let c =
      run_turns ntop peer ticking idle 8 (accepted 5 9 new_context two_conns initial) opening in
    (c.system.trace ≡ drop (to_come c.system.place) lifetime)
    × (c.server.conns ≡ conns_at 8 two_conns c.system.place)
    × (c.faulted ≡ false)
unfolding contains
connection_lives_example =
    connection_lives ntop peer ticking idle 8 two_conns 5 9 new_context initial opening refl
      some_ne_none

connection_ends_example :
    let c =
      run_turns ntop peer ticking idle 8
        (run_turns ntop peer ticking idle 8 (accepted 5 9 new_context two_conns initial) opening)
        closing in
    (c.system.place ≡ exited)
    × (c.system.trace ≡ lifetime)
    × (c.server.conns ≡ erase 8 two_conns.conns)
unfolding contains run_turns take_turn callback thread_step wake accepted start get_id find
    generate_id assign
connection_ends_example =
    connection_ends ntop peer ticking idle 8 two_conns 5 9 new_context initial opening closing refl
      some_ne_none (λ e. cc) (omega arith)

abbrev no_sockets : Store
no_sockets b = none

new_base_conn-cycled_example :
    let (c, st₁) = new_base_conn 64 no_sockets in
    (st₂ : Store) × (pointer_cycle c st₁ ≡ some (success, st₂))
    × (server_get_recv_timeout (Pointers.new_server 64) st₂ ≡ some (pos 30000000))
    × (server_get_send_timeout (Pointers.new_server 64) st₂ ≡ some (pos 30000000))
    × (charge_get_recv_bytes (Pointers.new_server 64).protocol st₂ ≡ some (pos 0))
    × (charge_get_send_bytes (Pointers.new_server 64).protocol st₂ ≡ some (pos 0))
    × ((b : ℕ) → b ≢ 64 → st₂ b ≡ none)
    × ((b : ℕ) → delete_base_conn c st₂ b ≡ none)
new_base_conn-cycled_example = new_base_conn-cycled 64 no_sockets refl

-- Two places, one taken.
abbrev config : ConfigInfo
config = record { json = []; json_map = (conf_max_connections, codes "2") ∷ [] }

abbrev one_conn : Server
one_conn = record new_server { conns = 7 ∷ []; signal_manager = true; kbps = some new_kbps }

abbrev arrivals : List Accepted
arrivals =
    some (21, record { address = 9; start = success })
    ∷ none
    ∷ some (22, record { address = 9; start = success })
    ∷ []
