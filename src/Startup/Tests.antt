-- ===== src/Startup/Tests.antt =====
-- The start at fixed answers of the system.
use srslog.Kbps.{set_io}
use srslog.Clock.{update_system_time_ms, set_time}
use srslog.Server
use srslog.Config.{new_config, load_configfile, read_chunks, parse_and_check, get_daemon}
use srslog.Config.Json.{CJson, lookup, parse_json_no_array, insert_items, insert}
use srslog.Startup.{serves, main, initialize_and_run, run}
use srslog.Startup.Main.{Served, main-Served}
use srslog.Log
use srslog.Base.{
  ℕ, List, ◌+◌, ◌≤◌, ◌≡◌, ◌≢◌, ◌&&◌, length, refl, true, false, Option, none, some, [], ◌∷◌,
}
use srslog.Descriptors.{Table, Library}
use srslog.Descriptors.Closing.{KeepsOthers}
use srslog.Descriptors.Clients.{bit, uses}
use srslog.Serving.{Turn, faulted, accepts, catches, passes, reads_signal, serve}
use srslog.Serving.Start.{begin, main_serves_soundly}
use srslog.Base.Int.{ℤ, pos, negsuc, pos_part, ltb_ℤ}
use srslog.ErrorCode.{success}
use srslog.Bytes.{Bytes, codes, c_str, atoi, decimal}
use srslog.Clock.{initial}
use srslog.Kbps.{new_kbps}
use srslog.Config.{
  ConfigInfo, conf_listen, conf_max_connections, get_value, get_listen, get_max_connections,
}
use srslog.Log.{LogEnv}
use srslog.Listener.{Listener, SocketEnv, base, listen, open_and_start, port_bits}
use srslog.PidFile.{truncated, wrote, close_on_exec, acquire_pid_file, write_pid}
use srslog.Context.{generate_id, assign}
use srslog.Signal.{SignalEnv, new_manager}
use srslog.Signal
use srslog.Server.{
  new_server, listen_base, listen_ports, close_listeners, signal_reload_no, sigint, sigusr2,
  sigterm,
}
use srslog.Startup.{
  StartEnv, Process, run_master, acquire_stage, st_stage, signal_stage, run_listening, listen_stage,
  initialize_st, srs_init_st, srs_st_epoll_is_supported,
}

abbrev config : ConfigInfo
config = record {
  json = [];
  json_map = (conf_listen, codes "17644") ∷ (conf_max_connections, codes "2") ∷ [];
}

abbrev working : SocketEnv
working = record {
  socket = pos 3;
  setsockopt = λ fd. pos 0;
  bind = λ fd port. pos 0;
  listen = λ fd backlog. pos 0;
  open_socket = λ fd. some 1;
  start_thread = success;
}

abbrev log_env : LogEnv
log_env = record {
  usec_of_day = none;
  local_time = none;
  pid = 77;
  context_id = 100;
  errno = 0;
  strerror = λ n. codes "denied";
  config = some config;
  open_file = λ name. (pos 9, 0);
  create_file = λ name. pos 11;
}

abbrev answers : StartEnv
answers = record {
  fopen = λ name. none;
  gettimeofday = λ n. some (record { tv_sec = pos (100 + n); tv_usec = pos 0 });
  stats = λ p. record { recv_bytes = pos 0; send_bytes = pos 0 };
  log = log_env;
  fork_first = pos 0;
  fork_second = pos 0;
  pid = record {
    open_fd = pos 4;
    set_lock = pos 0;
    lock_errno = 0;
    truncate = pos 0;
    getpid = 42;
    write_count = pos 2;
    get_flags = pos 0;
    set_flags = pos 0;
  };
  st = record { epoll_errno = 0; set_eventsys = pos 0; st_init = pos 0 };
  main_thread = 1;
  sockets = λ i. working;
  signal = record { pipe = pos 0; read_end = pos 5; write_end = pos 6; start_thread = success };
}

abbrev loaded : Process
loaded = record {
  config = config;
  log = record { level = 3; log_data = []; fd = negsuc 0; log_to_file_tank = false };
  server = record new_server { signal_manager = true; kbps = some new_kbps };
  clock = initial;
  context = record { cache = []; next_id = 100; overflowed = false };
  signals = new_manager;
  pid_effects = [];
  events = [];
}

abbrev listening : Listener
listening = record { ltype = base; fd = pos 3; stfd = some 1; port = pos 17644; started = true }

abbrev serving : Process
serving = record loaded {
  server = record (loaded.server) { pid_fd = pos 4; listeners = listening ∷ [] };
  context = record { cache = (1, 100) ∷ []; next_id = 101; overflowed = false };
  signals = record {
    read_end = pos 5;
    write_end = pos 6;
    queue = [];
    installed = signal_reload_no ∷ sigterm ∷ sigint ∷ sigusr2 ∷ [];
    started = true;
    read_stfd = none;
  };
  pid_effects = truncated (pos 4) ∷ wrote (pos 4) (codes "42") ∷ close_on_exec (pos 4) ∷ [];
}

-- Every text parses to the settings above.
abbrev settings_json : CJson
settings_json = record {
  Item = Unit {0};
  parse = λ text. some tt;
  get_object_item =
      λ root key. elim (lookup key config.json_map) [ none ↦ none | some v ↦ some (some v) ];
}

abbrev file_answers : StartEnv
file_answers = record answers { fopen = λ name. some (codes "x") }

abbrev blank : Process
blank = record loaded { config = new_config; server = new_server }

abbrev arguments : List Bytes
arguments = codes "app.json" ∷ []

abbrev started : Process
started = elim (main settings_json file_answers arguments blank) [ serves q ↦ q | _ ↦ blank ]

it_serves : main settings_json file_answers arguments blank ≡ serves started
unfolding main load_configfile read_chunks parse_and_check parse_json_no_array insert_items insert
    initialize_and_run Log.initialize Server.initialize update_system_time_ms set_time set_io run
    get_daemon run_master acquire_stage acquire_pid_file write_pid decimal st_stage initialize_st
    srs_init_st srs_st_epoll_is_supported generate_id assign listen_stage listen_base
    close_listeners listen_ports listen open_and_start port_bits get_listen get_max_connections
    get_value atoi c_str run_listening signal_stage Signal.start
it_serves = refl

main-Served_example : Served settings_json file_answers arguments blank started
main-Served_example = main-Served settings_json file_answers arguments blank started it_serves

abbrev library : Library
library = record { fileno = λ h. pos h; netfd_close = λ h t. t }

library-KeepsOthers : KeepsOthers library
library-KeepsOthers h t d e = refl

abbrev opens : ℤ → Option ℕ
opens fd = some 7

some_handle : opens file_answers.signal.read_end ≢ none
some_handle e = cc

abbrev standard : Table
standard d = ltb_ℤ (negsuc 0) d && ltb_ℤ d (pos 7)

-- A client comes, a signal comes, and the main cycle passes.
abbrev turns : List Turn
turns =
    accepts 0 (some (8, record { address = 900; start = success }))
    ∷ catches sigterm
    ∷ passes
    ∷ reads_signal
    ∷ []

main_serves_soundly_example :
    let v =
      serve library opens file_answers.gettimeofday started.config turns (begin started standard) in
    (v.status ≢ faulted)
    × (length v.books.server.conns ≤ pos_part (get_max_connections started.config))
    × (length v.books.server.conns ≤ 32756)
    × ((d : ℤ)
        → bit (v.books.table d)
          ≡ bit (standard d) + uses library v.books.handles v.books.server.conns d)
main_serves_soundly_example =
    main_serves_soundly library library-KeepsOthers opens file_answers.gettimeofday settings_json
      file_answers arguments blank started standard turns it_serves refl some_handle
