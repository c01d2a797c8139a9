-- ===== src/Conn.antt =====
-- src/base/app_conn.h and app_conn.cpp, with the one class built on them, `SrsBaseConn` of
-- src/conns/base/app_base_conn.cpp, and its proxy in app_base_server.cpp: a client's connection.
pub mod Cycle
pub mod Pointers
pub mod Life
mod Tests
use srslog.Base.{ℕ, Bool, true, false, Option, none, some, [], if◌then◌else◌}
use srslog.Base.Int.{ℤ, pos, eqb_ℤ}
use srslog.Bytes.{Bytes}
use srslog.ErrorCode.{success, socket_closed, point_null, is_client_gracefully_close}
use srslog.Socket.{StSocket, new_socket, set_recv_timeout, set_send_timeout}
use srslog.Context.{ThreadContext, generate_id}
use srslog.Address.{Sockaddr, srs_get_peer_ip}
use srslog.Thread.{SrsThread, stop_loop}

-- `SrsChargeProtocal` and `SrsBaseServer` hold one socket between them and the connection; each
-- passes the timeouts on.
pub record SrsBaseServer : Type 0 where
  pub protocol : StSocket

abbrev pub proxy_set_recv_timeout : ℤ → SrsBaseServer → SrsBaseServer
proxy_set_recv_timeout t p = record { protocol = set_recv_timeout t p.protocol }

abbrev pub proxy_set_send_timeout : ℤ → SrsBaseServer → SrsBaseServer
proxy_set_send_timeout t p = record { protocol = set_send_timeout t p.protocol }

-- The connection's own socket object is the one of its proxy.
pub record SrsBaseConn : Type 0 where
  pub stfd : ℕ
  pub ip : Bytes
  pub proxy : Option SrsBaseServer

abbrev pub new_conn : ℕ → SrsBaseConn
new_conn client = record { stfd = client; ip = []; proxy = some (record { protocol = new_socket }) }

abbrev pub account_timeout_us : ℤ
account_timeout_us = pos 30000000

unfoldable pub do_cycle : SrsBaseConn → ℤ × SrsBaseConn
do_cycle c = elim c.proxy [
  | none ↦ (point_null, c)
  | some p ↦ (
    success,
    record c {
      proxy =
          some (
            proxy_set_send_timeout account_timeout_us
              (proxy_set_recv_timeout account_timeout_us p));
    },
  )
]

-- What `cycle` writes to the log.
pub data Report : Type 0 where
  client_finished client_disconnected : Report
  nothing : Report

unfoldable pub report_of : ℤ → Report
report_of ret =
    if eqb_ℤ ret success
    then client_finished
    else if eqb_ℤ ret socket_closed
    then client_disconnected
    else nothing

-- A socket error becomes the client's leaving.
unfoldable pub closed_code : ℤ → ℤ
closed_code ret = if is_client_gracefully_close ret then socket_closed else ret

-- What a run of `cycle` leaves: its code, the connection, the ids, the thread, and the report.
pub record Cycled (A : Type 0) : Type 0 where
  pub ret : ℤ
  pub conn : A
  pub context : ThreadContext
  pub thread : SrsThread
  pub report : Report

-- `SrsConnection::cycle`, for the `do_cycle` and the `ip` of a class of connections.
unfoldable pub cycle :
    {A : Type 0}
    → (A → ℤ × A)
    → (Bytes → A → A)
    → Bytes
    → ℕ
    → A
    → ThreadContext
    → SrsThread
    → Cycled A
unfolding report_of closed_code
cycle do_cycle set_ip ip self c context t =
    let (ret, c') = do_cycle (set_ip ip c) in
    record {
      ret = success;
      conn = c';
      context = generate_id self context;
      thread = stop_loop t;
      report = report_of (closed_code ret);
    }

abbrev pub set_ip : Bytes → SrsBaseConn → SrsBaseConn
set_ip ip c = record c { ip = ip }

-- The cycle of a base connection; `getpeername` is asked for its descriptor.
unfoldable pub base_cycle :
    (ℕ → Bytes → Option Bytes)
    → (ℕ → Option Sockaddr)
    → ℕ
    → SrsBaseConn
    → ThreadContext
    → SrsThread
    → Cycled SrsBaseConn
unfolding cycle do_cycle
base_cycle inet_ntop getpeername self c context t =
    cycle do_cycle set_ip (srs_get_peer_ip inet_ntop (getpeername c.stfd)) self c context t
