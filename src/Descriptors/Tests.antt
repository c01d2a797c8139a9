-- ===== src/Descriptors/Tests.antt =====
-- The descriptors at fixed inputs, and the theorems there.
use srslog.Log.{FastLog, LogEnv, trace, write_fd, on_reload_log_file}
use srslog.Log.Header.{Tm, header_text}
use srslog.Log.Line.{line_of}
use srslog.Log.Overflow.{start_of}
use srslog.Descriptors.StaleLog.{log_closes, stale_log-writes_client}
use srslog.Base.{
  replicate, length, arith, ℕ, ◌+◌, ◌≡◌, refl, true, false, not, ◌&&◌, Option, none, some, List, [],
  ◌∷◌,
}
use srslog.Base.Int.{◌<ℤ◌, ℤ, pos, negsuc, ltb_ℤ}
use srslog.ErrorCode.{success}
use srslog.Bytes.{empty, codes, atoi, c_str}
use srslog.Clock.{Timeval, initial}
use srslog.Kbps.{Statistic, new_kbps}
use srslog.Config.{
  ConfigInfo, conf_max_connections, get_max_connections, get_log_file_name, get_value,
}
use srslog.Listener.{Listener, new_listener, base}
use srslog.Signal.{SignalManager, new_manager}
use srslog.Server.{
  Server, new_server, AcceptEnv, destroy, close_listeners, remove, contains, accept_client, erase,
}
use srslog.Descriptors.{
  Table, open_fd, close, Library, srs_close_stfd, delete_listener, destroy_all, Books, Call,
  arrives, leaves, book, books,
}
use srslog.Descriptors.Closing.{over, KeepsOthers}
use srslog.Descriptors.Reused.{arrived, deleted, reused_client_closed}
use srslog.Descriptors.Destroying.{quiet, of_server, destroy_all-closes}
use srslog.Descriptors.Clients.{bit, uses, Accounted, clients_accounted}

-- A library whose close leaves the descriptor open.
abbrev lazy : Library
lazy = record { fileno = λ h. pos h; netfd_close = λ h t. t }

lazy-KeepsOthers : KeepsOthers lazy
lazy-KeepsOthers h t d e = refl

abbrev standard : Table
standard d = ltb_ℤ (negsuc 0) d && ltb_ℤ d (pos 3)

abbrev listening : Listener
listening = record (new_listener base) { fd = pos 5; stfd = some 5; started = true }

abbrev serving : Server
serving = record new_server {
  pid_fd = pos 3;
  conns = 900 ∷ [];
  listeners = listening ∷ [];
  signal_manager = true;
  kbps = some new_kbps;
}

abbrev manager : SignalManager
manager = record new_manager {
  read_end = pos 6;
  write_end = pos 7;
  started = true;
  read_stfd = some 6;
}

abbrev opened : Table
opened d = ltb_ℤ (negsuc 0) d && ltb_ℤ d (pos 9)

abbrev at_900 : ℕ → Option ℕ
at_900 a = some 8

destroy_all-closes_example :
    let r = destroy_all lazy quiet (λ t. t) at_900 manager serving opened in
    (r.0.listeners ≡ [])
    × (r.0.signal_manager ≡ false)
    × (ltb_ℤ (pos 0) r.0.pid_fd ≡ false)
    × (r.0.conns ≡ 900 ∷ [])
    × ((d : ℤ) → r.1 d ≡ (opened d && not (of_server lazy manager serving d)))
destroy_all-closes_example = destroy_all-closes lazy lazy-KeepsOthers at_900 manager serving opened

-- The connection's descriptor 8 stays open, the pid file's does not.
left_open :
    let r = destroy_all lazy quiet (λ t. t) at_900 manager serving opened in
    (r.1 (pos 8) ≡ true) × (r.1 (pos 3) ≡ false) × (r.1 (pos 7) ≡ false)
unfolding destroy_all close destroy close_listeners delete_listener
left_open = (refl, refl, refl)

abbrev ticking : ℕ → Option Timeval
ticking n = some (record { tv_sec = pos (100 + n); tv_usec = pos 0 })

abbrev idle : ℕ → Statistic
idle p = record { recv_bytes = pos 0; send_bytes = pos 0 }

abbrev config : ConfigInfo
config = record { json = []; json_map = (conf_max_connections, codes "2") ∷ [] }

abbrev begin : Books
begin = record {
  server = record new_server { signal_manager = true; kbps = some new_kbps };
  clock = initial;
  handles = λ a. none;
  table = standard;
}

abbrev at_address : ℕ → AcceptEnv
at_address a = record { address = a; start = success }

abbrev history : List Call
history =
    arrives (at_address 900) base 3
    ∷ arrives (at_address 901) base 4
    ∷ arrives (at_address 902) base 5
    ∷ leaves 900 idle
    ∷ arrives (at_address 900) base 3
    ∷ []

clients_accounted_example :
    let b = books lazy ticking config quiet begin history in
    bit (b.table (pos 4)) ≡ bit (standard (pos 4)) + uses lazy b.handles b.server.conns (pos 4)
clients_accounted_example =
    clients_accounted lazy ticking config quiet begin history lazy-KeepsOthers refl (pos 4)

-- The third client is refused; the fifth arrival takes the place of the first.
history_conns :
    let b = books lazy ticking config quiet begin history in
    (b.server.conns ≡ 901 ∷ 900 ∷ []) × (b.table (pos 3) ≡ true) × (b.table (pos 5) ≡ false)
unfolding books book remove contains accept_client get_max_connections atoi c_str get_value close
    erase
history_conns = (refl, refl, refl)

abbrev noon : Tm
noon = record { tm_year = 115; tm_mon = 4; tm_mday = 1; tm_hour = 12; tm_min = 3; tm_sec = 9 }

abbrev nameless : ConfigInfo
nameless = record { json = []; json_map = [] }

abbrev log_env : LogEnv
log_env = record {
  usec_of_day = some 42999;
  local_time = some noon;
  pid = 77;
  context_id = 100;
  errno = 0;
  strerror = λ n. [];
  config = some nameless;
  open_file = λ name. (pos 9, 0);
  create_file = λ name. pos 11;
}

abbrev file_log : FastLog
file_log = record { level = 3; log_data = replicate 4096 0; fd = pos 6; log_to_file_tank = true }

abbrev logging : Books
logging = record begin { table = open_fd (pos 6) standard }

logging_room : pos (length logging.server.conns) <ℤ get_max_connections config
unfolding get_max_connections atoi c_str get_value
logging_room = omega arith

no_file_name : empty (get_log_file_name nameless) ≡ true
unfolding get_log_file_name get_value
no_file_name = refl

abbrev relistening : Books
relistening = record begin { table = open_fd (pos 5) standard }

-- The client 900 is given number 5, which the listener's destructor has just freed.
reused_client_closed_example :
    let env = at_address 900 in
    let served =
      arrived lazy ticking config quiet env 5 5 listening relistening
        (srs_close_stfd lazy (some 5) (open_fd (pos 5) standard)).1 in
    let after = deleted lazy ticking config quiet env 5 5 listening relistening in
    (contains 900 served.server.conns ≡ true)
    × (served.handles 900 ≡ some 5)
    × (served.table (pos 5) ≡ true)
    × (after (pos 5) ≡ false)
    × ((t₀ : Table) → ¬ (Accounted lazy t₀ (record served { table = after })))
unfolding contains
reused_client_closed_example =
    reused_client_closed lazy ticking config quiet (at_address 900) 5 5 listening relistening refl
      refl refl refl refl logging_room

stale_log-writes_client_example :
    let (ret, l', outs) = on_reload_log_file log_env file_log in
    let b' =
      book lazy ticking config quiet
        (record logging { table = log_closes outs logging.table })
        (arrives (at_address 900) base 6) in
    let text =
      start_of (header_text false none noon 42999 (codes "trace") 77 100 0) (codes "hello") in
    (contains 900 b'.server.conns ≡ true)
    × (over lazy (b'.handles 900) (pos 6) ≡ true)
    × (b'.table (pos 6) ≡ true)
    × ((l'' : FastLog) × (trace none (some (codes "hello")) log_env l'
          ≡ some (l'', write_fd (pos 6) (line_of text) ∷ [])))
unfolding contains
stale_log-writes_client_example =
    stale_log-writes_client lazy ticking config quiet log_env log_env file_log nameless
      (at_address 900) 6 logging none (codes "hello") 42999 noon refl no_file_name refl
      (omega arith) refl refl logging_room
      (record { day = refl; calendar = refl; buffer = refl; enabled = omega arith })
