-- ===== src/Startup.antt =====
-- src/main.cpp and src/base/app_st.cpp, with the start-up methods of `SrsServer`: from the command
-- line to the main cycle.
pub mod Order
pub mod Main
mod Tests
use srslog.Base.{
  ℕ, suc, Bool, true, false, not, Option, none, some, List, [], ◌∷◌, ◌==◌, ltb, if◌then◌else◌,
}
use srslog.Base.Int.{ℤ, pos, negsuc, ltb_ℤ, eqb_ℤ}
use srslog.Bytes.{Bytes}
use srslog.ErrorCode.{success, st_set_epoll, st_initialize, exceed_threads}
use srslog.Clock.{Timeval, Clock}
use srslog.Kbps.{Statistic}
use srslog.Config.{ConfigInfo, load_configfile, parse_and_check, get_daemon, get_max_connections}
use srslog.Config.Json.{CJson}
use srslog.Log.{FastLog, LogEnv}
use srslog.Log
use srslog.Listener.{SocketEnv}
use srslog.PidFile.{PidEnv, Effect, acquire_pid_file}
use srslog.Context.{ThreadContext, generate_id}
use srslog.Signal.{SignalManager, SignalEnv}
use srslog.Signal
use srslog.Server.{Server, Event, listen_base}
use srslog.Server

-- The answers of the system and of the `st` library during the start.
pub record StEnv : Type 0 where
  pub epoll_errno : ℕ
  pub set_eventsys : ℤ
  pub st_init : ℤ

pub record StartEnv : Type 0 where
  pub fopen : Bytes → Option Bytes
  pub gettimeofday : ℕ → Option Timeval
  pub stats : ℕ → Statistic
  pub log : LogEnv
  pub fork_first : ℤ
  pub fork_second : ℤ
  pub pid : PidEnv
  pub st : StEnv
  pub main_thread : ℕ
  pub sockets : ℕ → SocketEnv
  pub signal : SignalEnv

-- The global objects, and what was done to the pid file and to listeners.
pub record Process : Type 0 where
  pub config : ConfigInfo
  pub log : FastLog
  pub server : Server
  pub clock : Clock
  pub context : ThreadContext
  pub signals : SignalManager
  pub pid_effects : List Effect
  pub events : List Event

-- `main` returns a code, a parent process exits, a `srs_assert` or the library's string fails, or
-- the main cycle is entered, which only a signal leaves.
pub data Outcome : Type 0 where
  returns : ℤ → Process → Outcome
  exits : ℤ → Outcome
  faults : Outcome
  serves : Process → Outcome

abbrev pub enosys : ℕ
enosys = 38

unfoldable pub srs_st_epoll_is_supported : StEnv → Bool
srs_st_epoll_is_supported env = not (env.epoll_errno == enosys)

unfoldable pub srs_init_st : StEnv → ℤ
unfolding srs_st_epoll_is_supported
srs_init_st env =
    if not (srs_st_epoll_is_supported env)
    then st_set_epoll
    else if eqb_ℤ env.set_eventsys (negsuc 0)
    then st_set_epoll
    else if eqb_ℤ env.st_init (pos 0)
    then success
    else st_initialize

abbrev pub max_threads : ℤ
max_threads = pos 32756

unfoldable pub initialize_st : StEnv → ℕ → ConfigInfo → ThreadContext → ℤ × ThreadContext
initialize_st env self config context =
    if not (eqb_ℤ (srs_init_st env) success)
    then (srs_init_st env, context)
    else if ltb_ℤ max_threads (get_max_connections config)
    then (exceed_threads, context)
    else (success, generate_id self context)

-- One stage of the chain: the next runs if the code is success.
abbrev pub and_then : ℤ × Process → (Process → Outcome) → Outcome
and_then (ret, p) next = if eqb_ℤ ret success then next p else returns ret p

unfoldable pub acquire_stage : StartEnv → Process → ℤ × Process
acquire_stage env p =
    let (ret, fd, effects) = acquire_pid_file env.pid p.server.pid_fd in
    (ret, record p { server = record (p.server) { pid_fd = fd }; pid_effects = effects })

unfoldable pub st_stage : StartEnv → Process → ℤ × Process
st_stage env p =
    let (ret, context) = initialize_st env.st env.main_thread p.config p.context in
    (ret, record p { context = context })

unfoldable pub signal_stage : StartEnv → Process → ℤ × Process
signal_stage env p =
    let (ret, signals) = Signal.start env.signal p.signals in (ret, record p { signals = signals })

-- Behind the listening: `register_signal`, then `ingest`, which does nothing, then `cycle`.
unfoldable pub run_listening : StartEnv → Process → Outcome
run_listening env p = and_then (signal_stage env p) serves

unfoldable pub listen_stage : StartEnv → Process → Outcome
listen_stage env p = elim (listen_base p.config env.sockets p.server) [
  | none ↦ faults
  | some (ret, server, events) ↦
      and_then (ret, record p { server = server; events = events }) (run_listening env)
]

-- `initialize_signal` does nothing.
unfoldable pub run_master : StartEnv → Process → Outcome
run_master env p = and_then (acquire_stage env p) λ q. and_then (st_stage env q) (listen_stage env)

-- Each process's way through `run`: the grandparent's and the father's results of `fork`.
unfoldable pub run : StartEnv → Process → Outcome
run env p =
    if not (get_daemon p.config)
    then run_master env p
    else if ltb_ℤ env.fork_first (pos 0)
    then returns (negsuc 0) p
    else if ltb_ℤ (pos 0) env.fork_first
    then exits (pos 0)
    else if ltb_ℤ env.fork_second (pos 0)
    then returns (negsuc 0) p
    else if ltb_ℤ (pos 0) env.fork_second
    then exits (pos 0)
    else run_master env p

-- The log and the server are initialized, then `run`.
unfoldable pub initialize_and_run : StartEnv → Process → Outcome
initialize_and_run env p =
    and_then
      (let (ret, log) = Log.initialize (record (env.log) { config = some p.config }) p.log in
        (ret, record p { log = log }))
      λ q. elim (Server.initialize env.gettimeofday env.stats q.server q.clock) [
        | none ↦ faults
        | some (ret, server, clock) ↦
            and_then (ret, record q { server = server; clock = clock }) (run env)
      ]

module _ (cjson : CJson) where
  -- The arguments behind the program's name.
  unfoldable pub main : StartEnv → List Bytes → Process → Outcome
  main env [] p = returns success p
  main env (file ∷ _) p =
      and_then
        (let (ret, config) = load_configfile env.fopen (some file) p.config in
          (ret, record p { config = config }))
        λ q. elim (parse_and_check cjson q.config) [
          | none ↦ faults
          | some (ret, config) ↦
              and_then (ret, record q { config = config }) (initialize_and_run env)
        ]
