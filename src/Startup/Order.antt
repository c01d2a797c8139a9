-- ===== src/Startup/Order.antt =====
-- What has been done when the main cycle is entered.
use srslog.Base.{
  ℕ, ◌≡◌, refl, sym, ◌∙◌, ap, inl, inr, true, Option, none, some, List, [], ◌∷◌, arith, Bool-cases,
  if◌then◌else◌,
}
use srslog.Base.Int.{ℤ, ◌≤ℤ◌, eqb_ℤ, eqb→eq}
use srslog.ErrorCode.{success}
use srslog.PidFile.{Effect}
use srslog.PidFile.Acquired.{acquire_pid_file_succeeds_iff, acquire_pid_file_text}
use srslog.PidFile.Acquired
use srslog.Config.{ConfigInfo, get_max_connections}
use srslog.Context.{ThreadContext}
use srslog.Signal.{SignalEnv, SignalManager, holds}
use srslog.Signal
use srslog.Server.{Server, Event, listen_base, signal_reload_no, sigint, sigusr2, sigterm}
use srslog.Server.Listening.{Relistened, listen_base-Relistened}
use srslog.Startup.{
  StEnv, StartEnv, Process, Outcome, returns, faults, serves, and_then, acquire_stage, st_stage,
  signal_stage, run_listening, listen_stage, run_master, initialize_st, srs_init_st, max_threads,
}

-- A chain that ends in the main cycle has passed each of its stages.
pub and_then-serves :
    (ret : ℤ) (p q : Process) (next : Process → Outcome)
    → and_then (ret, p) next ≡ serves q
    → (ret ≡ success) × (next p ≡ serves q)
and_then-serves ret p q next h = elim (Bool-cases (eqb_ℤ ret success)) [
  | inl done ↦
      (eqb→eq ret success done, sym (ap (λ b. if b then next p else returns ret p) done) ∙ h)
  | inr failed ↦ absurd (stopped (sym (ap (λ b. if b then next p else returns ret p) failed) ∙ h))
]
  where
    stopped : returns ret p ≡ serves q → ⊥
    stopped e = cc

st_bounded :
    (env : StEnv) (self : ℕ) (config : ConfigInfo) (context : ThreadContext)
    → (initialize_st env self config context).0 ≡ success
    → (srs_init_st env ≡ success) × (get_max_connections config ≤ℤ max_threads)
unfolding initialize_st
st_bounded env self config context h =
    (ground (arith, eqb→eq (srs_init_st env) success), ground arith)

-- All that holds of a process that serves.
pub record Started (env : StartEnv) (p q : Process) : Type 0 where
  pub locked : Acquired.AllSucceed env.pid
  pub pid_fd : q.server.pid_fd ≡ env.pid.open_fd
  pub threads : get_max_connections p.config ≤ℤ max_threads
  pub listening :
      Relistened p.config (record (p.server) { pid_fd = env.pid.open_fd }) q.server q.events
  pub signals : q.signals.installed ≡ signal_reload_no ∷ sigterm ∷ sigint ∷ sigusr2 ∷ []
  pub thread : q.signals.started ≡ true
  pub config : q.config ≡ p.config
  pub pipe : q.signals.read_end ≡ env.signal.read_end

signal_stage-started :
    (env : StartEnv) (p : Process)
    → (signal_stage env p).0 ≡ success
    → let q = (signal_stage env p).1 in
      (q.signals.installed ≡ signal_reload_no ∷ sigterm ∷ sigint ∷ sigusr2 ∷ [])
      × (q.signals.started ≡ true)
      × (q.server ≡ p.server)
      × (q.events ≡ p.events)
      × (q.config ≡ p.config)
      × (q.signals.read_end ≡ env.signal.read_end)
unfolding signal_stage Signal.start
signal_stage-started env p h =
    (ground arith, ground arith, ground arith, ground arith, ground arith, ground arith)

-- The process behind the pid file and the thread library.
abbrev ready : StartEnv → Process → Process
ready env p = (st_stage env (acquire_stage env p).1).1

acquired :
    (env : StartEnv) (p : Process)
    → (acquire_stage env p).0 ≡ success
    → Acquired.AllSucceed env.pid × ((acquire_stage env p).1.server.pid_fd ≡ env.pid.open_fd)
unfolding acquire_stage
acquired env p h =
    let (text, e, _) = acquire_pid_file_text env.pid p.server.pid_fd h in
    (
      (acquire_pid_file_succeeds_iff env.pid p.server.pid_fd).0 h,
      ap (λ (r : ℤ × ℤ × List Effect). r.1) e,
    )

ready_fields :
    (env : StartEnv) (p : Process)
    → ((ready env p).config ≡ p.config)
      × ((ready env p).server
          ≡ record (p.server) { pid_fd = (acquire_stage env p).1.server.pid_fd })
unfolding acquire_stage st_stage
ready_fields env p = (refl, refl)

bounded :
    (env : StartEnv) (p : Process)
    → (st_stage env (acquire_stage env p).1).0 ≡ success
    → get_max_connections p.config ≤ℤ max_threads
unfolding acquire_stage st_stage
bounded env p h = (st_bounded env.st env.main_thread p.config p.context h).1

relistened :
    (env : StartEnv) (config : ConfigInfo) (s s₁ s₂ : Server) (events : List Event)
    → s ≡ s₁
    → listen_base config env.sockets s ≡ some (success, s₂, events)
    → Relistened config s₁ s₂ events
relistened env config s s₁ s₂ events e h =
    listen_base-Relistened config env.sockets s₁ s₂ events (rw e at h)

-- Behind the listening.
run_listening-serves :
    (env : StartEnv) (p q : Process)
    → run_listening env p ≡ serves q
    → (q.server ≡ p.server)
      × (q.events ≡ p.events)
      × (q.signals.installed ≡ signal_reload_no ∷ sigterm ∷ sigint ∷ sigusr2 ∷ [])
      × (q.signals.started ≡ true)
      × (q.config ≡ p.config)
      × (q.signals.read_end ≡ env.signal.read_end)
unfolding run_listening
run_listening-serves env p q h =
    let r = signal_stage env p in
    let (ret, e) = and_then-serves r.0 r.1 q serves h in
    let same : r.1 ≡ q = cc in
    let (installed, started, server, events, config, pipe) = signal_stage-started env p ret in
    (
      sym (ap (λ (x : Process). x.server) same) ∙ server,
      sym (ap (λ (x : Process). x.events) same) ∙ events,
      sym (ap (λ (x : Process). x.signals.installed) same) ∙ installed,
      sym (ap (λ (x : Process). x.signals.started) same) ∙ started,
      sym (ap (λ (x : Process). x.config) same) ∙ config,
      sym (ap (λ (x : Process). x.signals.read_end) same) ∙ pipe,
    )

-- The listening answers, and what it answers is the server that runs.
listened :
    (env : StartEnv) (p q : Process) (o : Option (ℤ × Server × List Event))
    → elim o [
      | none ↦ faults
      | some (ret, server, events) ↦
          and_then (ret, record p { server = server; events = events }) (run_listening env)
    ]
      ≡ serves q
    → (o ≡ some (success, q.server, q.events))
      × (q.signals.installed ≡ signal_reload_no ∷ sigterm ∷ sigint ∷ sigusr2 ∷ [])
      × (q.signals.started ≡ true)
      × (q.config ≡ p.config)
      × (q.signals.read_end ≡ env.signal.read_end)
listened env p q none h = absurd (faulted h)
  where
    faulted : faults ≡ serves q → ⊥
    faulted e = cc
listened env p q (some (ret, server, events)) h =
    let p' = record p { server = server; events = events } in
    let (e, h') = and_then-serves ret p' q (run_listening env) h in
    let (s, v, installed, started, config, pipe) = run_listening-serves env p' q h' in
    (rw (e, s, v), installed, started, config, pipe)

-- The stages behind the thread library.
listen_stage-serves :
    (env : StartEnv) (p q : Process)
    → listen_stage env p ≡ serves q
    → (listen_base p.config env.sockets p.server ≡ some (success, q.server, q.events))
      × (q.signals.installed ≡ signal_reload_no ∷ sigterm ∷ sigint ∷ sigusr2 ∷ [])
      × (q.signals.started ≡ true)
      × (q.config ≡ p.config)
      × (q.signals.read_end ≡ env.signal.read_end)
unfolding listen_stage
listen_stage-serves env p q h = listened env p q (listen_base p.config env.sockets p.server) h

-- A process enters its main cycle only after it has locked its pid file and holds its descriptor,
-- has checked that the configured connections do not exceed the threads, runs a listener at each
-- configured port, and has its four signals installed and their thread started.
pub run_master-Started :
    (env : StartEnv) (p q : Process) → run_master env p ≡ serves q → Started env p q
unfolding run_master
run_master-Started env p q h =
    let one = acquire_stage env p in
    let two = st_stage env one.1 in
    let (r₁, h₁) =
      and_then-serves one.0 one.1 q (λ q'. and_then (st_stage env q') (listen_stage env)) h in
    let (r₂, h₂) = and_then-serves two.0 two.1 q (listen_stage env) h₁ in
    let (l, installed, started, kept, pipe) = listen_stage-serves env two.1 q h₂ in
    let (locked, fd) = acquired env p r₁ in
    let (config, server) = ready_fields env p in
    let before : two.1.server ≡ record (p.server) { pid_fd = env.pid.open_fd } =
      server ∙ ap (λ f. record (p.server) { pid_fd = f }) fd in
    let relisten =
      relistened env p.config two.1.server _ q.server q.events before
        (ap (λ c. listen_base c env.sockets two.1.server) (sym config) ∙ l) in
    record {
      locked = locked;
      pid_fd = ap (λ (s : Server). s.pid_fd) relisten.others;
      threads = bounded env p r₂;
      listening = relisten;
      signals = installed;
      thread = started;
      config = kept ∙ config;
      pipe = pipe;
    }
