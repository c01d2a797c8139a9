-- ===== src/Server.antt =====
-- src/base/app_server.h and app_server.cpp: the connection and listener managers, signals and the
-- main cycle of `SrsServer`. Pointers to connections are numbers. `none` is a failed `srs_assert` or
-- the use of a null pointer.
pub mod Manager
pub mod Clients
pub mod Listening
pub mod Cycle
pub mod Accepting
pub mod Uncounted
mod Tests
use srslog.Base.{
  ℕ, zero, suc, ◌+◌, ◌%◌, ◌==◌, Bool, true, false, ◌||◌, Option, none, some, List, [], ◌∷◌, ◌++◌,
  length, if◌then◌else◌,
}
use srslog.Base.Int.{ℤ, pos, negsuc, ◌/ℤ◌, ltb_ℤ, leb_ℤ, eqb_ℤ, srs_max, pos_part}
use srslog.ErrorCode.{success, exceed_threads}
use srslog.Bytes.{Bytes, c_str, atoi}
use srslog.Clock.{Timeval, Clock, update_system_time_ms}
use srslog.Kbps.{Kbps, KbpsDelta, Statistic, new_kbps, sample, set_io, add_delta}
use srslog.Config.{ConfigInfo, get_max_connections, get_heartbeat_interval, get_listen}
use srslog.Listener.{ListenerType, Listener, SocketEnv, type_eq, new_listener, listen}

-- `conns` holds the addresses of the connections; the two managers that `initialize` allocates are
-- `signal_manager` and `kbps`.
pub record Server : Type 0 where
  pub pid_fd : ℤ
  pub conns : List ℕ
  pub listeners : List Listener
  pub signal_manager : Bool
  pub kbps : Option Kbps
  pub signal_reload : Bool

abbrev pub new_server : Server
new_server = record {
  pid_fd = negsuc 0;
  conns = [];
  listeners = [];
  signal_manager = false;
  kbps = none;
  signal_reload = false;
}

pub data Event : Type 0 where
  free_listener : Listener → Event
  free_conn : ℕ → Event
  close_client : ℕ → Event
  close_pid_file : ℤ → Event

-- `SrsBaseConn`, the only class of connections that is built, reports no bytes.
abbrev pub base_conn_delta : KbpsDelta ℕ
base_conn_delta = record {
  send_bytes_delta = λ conn. (pos 0, conn);
  recv_bytes_delta = λ conn. (pos 0, conn);
}

-- `std::find` and `vector::erase` of one element.
unfoldable pub contains : ℕ → List ℕ → Bool
contains conn [] = false
contains conn (c ∷ cs) = c == conn || contains conn cs

unfoldable pub erase : ℕ → List ℕ → List ℕ
erase conn [] = []
erase conn (c ∷ cs) = if c == conn then cs else c ∷ erase conn cs

-- `close_listeners`: the listeners that stay, and the destruction of those of the type.
unfoldable pub close_listeners : ListenerType → List Listener → List Listener × List Event
close_listeners t [] = ([], [])
close_listeners t (l ∷ ls) =
    let (kept, events) = close_listeners t ls in
    if type_eq l.ltype t then (kept, free_listener l ∷ events) else (l ∷ kept, events)

-- The loop over the ports of `listen_base`; `env i` is the system at the i-th port.
unfoldable pub listen_ports : (ℕ → SocketEnv) → ℕ → List Bytes → List Listener → ℤ × List Listener
listen_ports env i [] listeners = (success, listeners)
listen_ports env i (p ∷ ports) listeners =
    let (ret, l) = listen (env i) (atoi (c_str p)) (new_listener ListenerType.base) in
    let rest = listen_ports env (suc i) ports (listeners ++ l ∷ []) in
    if eqb_ℤ ret success then rest else (ret, listeners ++ l ∷ [])

unfoldable pub listen_base :
    ConfigInfo → (ℕ → SocketEnv) → Server → Option (ℤ × Server × List Event)
listen_base config env s =
    let (kept, events) = close_listeners ListenerType.base s.listeners in
    let (ret, listeners) = listen_ports env 0 (get_listen config) kept in
    elim (get_listen config) [
      | [] ↦ none
      | _ ∷ _ ↦ some (ret, record s { listeners = listeners }, events)
    ]

-- `listen` and `on_reload_listen`.
abbrev pub listen_all : ConfigInfo → (ℕ → SocketEnv) → Server → Option (ℤ × Server × List Event)
listen_all = listen_base

-- What `accept_client` meets: the address of the new object, and what its `start` returns.
pub record AcceptEnv : Type 0 where
  pub address : ℕ
  pub start : ℤ

-- Built without SRS_RTMP_SERVER.
unfoldable pub accept_client :
    ConfigInfo → AcceptEnv → ListenerType → ℕ → Server → ℤ × Server × List Event
accept_client config env ltype client s =
    if leb_ℤ (get_max_connections config) (pos (length s.conns))
    then (success, s, close_client client ∷ [])
    else (elim ltype [
      | ListenerType.rtmp_stream ↦ (success, s, close_client client ∷ [])
      | ListenerType.base ↦ (env.start, record s { conns = s.conns ++ env.address ∷ [] }, [])
    ])

abbrev pub signal_reload_no : ℕ
signal_reload_no = 1

abbrev pub sigint : ℕ
sigint = 2

abbrev pub sigusr2 : ℕ
sigusr2 = 12

abbrev pub sigterm : ℕ
sigterm = 15

-- The server goes on, or the process exits with code 0.
pub data Signalled : Type 0 where
  goes_on : Server → Signalled
  exits : Signalled

-- Built without SRS_AUTO_GPERF_MC.
unfoldable pub on_signal : ℕ → Server → Signalled
on_signal signo s =
    if signo == signal_reload_no
    then goes_on (record s { signal_reload = true })
    else if signo == sigint || signo == sigusr2
    then exits
    else if signo == sigterm
    then exits
    else goes_on s

module _ (gettimeofday : ℕ → Option Timeval) where
  -- `resample_kbps` of one connection: `kbps_resample` of a base connection does nothing.
  unfoldable pub resample_conn : Bool → ℕ → Kbps → (ℕ → Statistic) → Clock → Kbps × Clock
  resample_conn do_resample conn k stats c =
      let k' = (add_delta base_conn_delta conn k).1 in
      if do_resample then sample gettimeofday stats k' c else (k', c)

  resample_each : List ℕ → Kbps → (ℕ → Statistic) → Clock → Kbps × Clock
  resample_each [] k stats c = (k, c)
  resample_each (conn ∷ conns) k stats c =
      let (k', c') = resample_conn false conn k stats c in resample_each conns k' stats c'

  -- `resample_kbps(NULL)`.
  unfoldable pub resample_all : List ℕ → Kbps → (ℕ → Statistic) → Clock → Kbps × Clock
  unfolding resample_each
  resample_all conns k stats c =
      let (k', c') = resample_each conns k stats c in sample gettimeofday stats k' c'

  -- `remove`: the connection is erased, counted once more, and freed.
  unfoldable pub remove :
      ℕ → (ℕ → Statistic) → Server → Clock → Option (Server × Clock × List Event)
  remove conn stats s c =
      if contains conn s.conns
      then (elim s.kbps [
        | none ↦ none
        | some k ↦
            let (k', c') = resample_conn true conn k stats c in
            some (record s { conns = erase conn s.conns; kbps = some k' }, c', free_conn conn ∷ [])
      ])
      else some (s, c, [])

  unfoldable pub initialize : (ℕ → Statistic) → Server → Clock → Option (ℤ × Server × Clock)
  initialize stats s c =
      let c' = update_system_time_ms gettimeofday c in
      let (k, c'') = set_io gettimeofday none none stats new_kbps c' in
      if s.signal_manager then none else elim s.kbps [
        | some _ ↦ none
        | none ↦ some (success, record s { signal_manager = true; kbps = some k }, c'')
      ]

unfoldable pub destroy : Server → Server × List Event
destroy s =
    let (kept, freed) = close_listeners ListenerType.rtmp_stream s.listeners in
    let (kept', freed') = close_listeners ListenerType.base kept in
    let s' = record s { listeners = kept'; signal_manager = false; kbps = none } in
    if ltb_ℤ (pos 0) s.pid_fd
    then (record s' { pid_fd = negsuc 0 }, freed ++ (freed' ++ close_pid_file s.pid_fd ∷ []))
    else (s', freed ++ freed')
