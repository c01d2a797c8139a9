-- ===== src/Listener.antt =====
-- src/base/app_listener.h and app_listener.cpp: a listening socket. The answers of the system and
-- of the `st` library during a call are the argument `env`.
use srslog.Base.{ℕ, ◌-◌, ◌%◌, ◌^◌, Bool, true, false, Option, none, some, if◌then◌else◌}
use srslog.Base.Int.{ℤ, pos, negsuc, eqb_ℤ}
use srslog.ErrorCode.{
  success, socket_create, socket_setreuse, socket_bind, socket_listen, st_open_socket,
}

pub data ListenerType : Type 0 where
  rtmp_stream base : ListenerType

abbrev pub type_eq : ListenerType → ListenerType → Bool
type_eq ListenerType.rtmp_stream ListenerType.rtmp_stream = true
type_eq ListenerType.rtmp_stream ListenerType.base = false
type_eq ListenerType.base ListenerType.rtmp_stream = false
type_eq ListenerType.base ListenerType.base = true

-- `started` says that its thread was started.
pub record Listener : Type 0 where
  pub ltype : ListenerType
  pub fd : ℤ
  pub stfd : Option ℕ
  pub port : ℤ
  pub started : Bool

abbrev pub new_listener : ListenerType → Listener
new_listener t = record { ltype = t; fd = negsuc 0; stfd = none; port = pos 0; started = false }

-- `bind` and `listen` are asked for a descriptor, `bind` for a port too.
pub record SocketEnv : Type 0 where
  pub socket : ℤ
  pub setsockopt : ℤ → ℤ
  pub bind : ℤ → ℕ → ℤ
  pub listen : ℤ → ℕ → ℤ
  pub open_socket : ℤ → Option ℕ
  pub start_thread : ℤ

abbrev pub server_listen_backlog : ℕ
server_listen_backlog = 512

-- The 16 bits of a port that `htons` takes.
unfoldable pub port_bits : ℤ → ℕ
port_bits (pos n) = n % 2 ^ 16
port_bits (negsuc n) = 2 ^ 16 - 1 - n % 2 ^ 16

-- `st_netfd_open_socket`, then the thread.
unfoldable pub open_and_start : SocketEnv → Listener → ℤ × Listener
open_and_start env l = elim (env.open_socket l.fd) [
  | none ↦ (st_open_socket, record l { stfd = none })
  | some s ↦
      (env.start_thread, record l { stfd = some s; started = eqb_ℤ env.start_thread success })
]

unfoldable pub listen : SocketEnv → ℤ → Listener → ℤ × Listener
unfolding open_and_start
listen env port l =
    let l' = record l { port = port; fd = env.socket } in
    if eqb_ℤ env.socket (negsuc 0)
    then (socket_create, l')
    else if eqb_ℤ (env.setsockopt env.socket) (negsuc 0)
    then (socket_setreuse, l')
    else if eqb_ℤ (env.bind env.socket (port_bits port)) (negsuc 0)
    then (socket_bind, l')
    else if eqb_ℤ (env.listen env.socket server_listen_backlog) (negsuc 0)
    then (socket_listen, l')
    else open_and_start env l'
