-- ===== src/Startup/Main.antt =====
-- From the command line to the main cycle.
use mathlib.Core.Path.{subst}
use srslog.Base.{
  ◌≡◌, ◌≢◌, ◌⊎◌, refl, sym, ◌∙◌, ap, true, false, Option, none, some, List, [], ◌∷◌, ◌++◌, arith,
}
use srslog.Base.Int.{ℤ, pos}
use srslog.Bytes.{Bytes}
use srslog.ErrorCode.{success, file_open}
use srslog.Clock.{Clock}
use srslog.Config.{ConfigInfo, load_configfile, parse_and_check, get_daemon}
use srslog.Config.Json.{CJson}
use srslog.Config.Load.{load_configfile_result}
use srslog.Log.{FastLog}
use srslog.Log
use srslog.Server.{Server}
use srslog.Server
use srslog.Startup.{
  StartEnv, Process, returns, faults, serves, and_then, run_master, run, initialize_and_run, main,
}
use srslog.Startup.Order.{and_then-serves, Started, run_master-Started}

-- The process is in the foreground, or it is the child of a child.
abbrev pub IsSon : StartEnv → ConfigInfo → Type 0
IsSon env c = (get_daemon c ≡ false) ⊎ ((env.fork_first ≡ pos 0) × (env.fork_second ≡ pos 0))

run-serves :
    (env : StartEnv) (p q : Process)
    → run env p ≡ serves q
    → IsSon env p.config × (run_master env p ≡ serves q)
unfolding run
run-serves env p q h = ground arith

initialized :
    (env : StartEnv) (p q : Process) (o : Option (ℤ × Server × Clock))
    → elim o [
      | none ↦ faults
      | some (ret, server, clock) ↦
          and_then (ret, record p { server = server; clock = clock }) (run env)
    ]
      ≡ serves q
    → (server : Server) × (clock : Clock) × (o ≡ some (success, server, clock))
      × (run env (record p { server = server; clock = clock }) ≡ serves q)
initialized env p q none h = absurd (not-serves h)
  where
    not-serves : faults ≡ serves q → ⊥
    not-serves e = cc
initialized env p q (some (ret, server, clock)) h =
    let (e, h') = and_then-serves ret (record p { server = server; clock = clock }) q (run env) h in
    (server, clock, rw e, h')

parsed_by :
    (env : StartEnv) (p q : Process) (o : Option (ℤ × ConfigInfo))
    → elim o [
      | none ↦ faults
      | some (ret, config) ↦ and_then (ret, record p { config = config }) (initialize_and_run env)
    ]
      ≡ serves q
    → (config : ConfigInfo) × (o ≡ some (success, config))
      × (initialize_and_run env (record p { config = config }) ≡ serves q)
parsed_by env p q none h = absurd (not-serves h)
  where
    not-serves : faults ≡ serves q → ⊥
    not-serves e = cc
parsed_by env p q (some (ret, config)) h =
    let (e, h') = and_then-serves ret (record p { config = config }) q (initialize_and_run env) h in
    (config, rw e, h')

initialize-manages :
    (env : StartEnv) (s s' : Server) (c c' : Clock)
    → Server.initialize env.gettimeofday env.stats s c ≡ some (success, s', c')
    → (s'.signal_manager ≡ true) × (s'.kbps ≢ none) × (s'.conns ≡ s.conns)
unfolding Server.initialize
initialize-manages env s s' c c' h = (ground arith, λ e. ground arith, ground arith)

loaded_by :
    (c : ConfigInfo) (r : ℤ × ConfigInfo) (o : Option Bytes)
    → r ≡ elim o [
      | none ↦ (file_open, c)
      | some content ↦ (success, record c { json = c.json ++ content })
    ]
    → r.0 ≡ success
    → (content : Bytes) × (o ≡ some content) × (r.1 ≡ record c { json = c.json ++ content })
loaded_by c r none e h = absurd (failed (sym (ap (λ (x : ℤ × ConfigInfo). x.0) e) ∙ h))
  where
    failed : file_open ≡ success → ⊥
    failed z = cc
loaded_by c r (some content) e h = (content, refl, ap (λ (x : ℤ × ConfigInfo). x.1) e)

-- All that is behind a process that serves.
pub record Served (cjson : CJson) (env : StartEnv) (args : List Bytes) (p q : Process)
    : Type 0 where
  pub file : Bytes
  pub rest : List Bytes
  pub named : args ≡ file ∷ rest
  pub content : Bytes
  pub read : env.fopen file ≡ some content
  pub config : ConfigInfo
  pub parsed :
      parse_and_check cjson (record (p.config) { json = p.config.json ++ content })
      ≡ some (success, config)
  pub son : IsSon env config
  -- what the master starts from
  pub ready : Process
  pub own : ready.config ≡ config
  pub managed : ready.server.signal_manager ≡ true
  pub counting : ready.server.kbps ≢ none
  pub clients : ready.server.conns ≡ p.server.conns
  pub started : Started env ready q

module _ (cjson : CJson) (env : StartEnv) where
  initialize_and_run-serves :
      (p q : Process)
      → initialize_and_run env p ≡ serves q
      → (r : Process) × (r.config ≡ p.config)
        × (r.server.signal_manager ≡ true)
        × (r.server.kbps ≢ none)
        × (r.server.conns ≡ p.server.conns)
        × (run env r ≡ serves q)
  unfolding initialize_and_run
  initialize_and_run-serves p q h =
      let log = Log.initialize (record (env.log) { config = some p.config }) p.log in
      let p' = record p { log = log.1 } in
      let (_, h') =
        and_then-serves log.0 p' q
          (λ r. elim (Server.initialize env.gettimeofday env.stats r.server r.clock) [
            | none ↦ faults
            | some (ret, server, clock) ↦
                and_then (ret, record r { server = server; clock = clock }) (run env)
          ])
          h in
      let (server, clock, e, r) =
        initialized env p' q (Server.initialize env.gettimeofday env.stats p.server p.clock) h' in
      let (managed, counting, clients) = initialize-manages env p.server server p.clock clock e in
      (record p' { server = server; clock = clock }, refl, managed, counting, clients, r)

  -- `main` comes to serve only as the process in the foreground or the child of a child, with a
  -- configuration that it read from the file it was given and that was parsed, with its managers made,
  -- its pid file locked, its connections within the threads, a listener running at each configured
  -- port and its signals installed.
  pub main-Served :
      (args : List Bytes) (p q : Process)
      → main cjson env args p ≡ serves q
      → Served cjson env args p q
  unfolding main
  main-Served [] p q h = absurd (not-serves h)
    where
      not-serves : returns success p ≡ serves q → ⊥
      not-serves e = cc
  main-Served (file ∷ rest) p q h =
      let load = load_configfile env.fopen (some file) p.config in
      let p' = record p { config = load.1 } in
      let (e, h₁) =
        and_then-serves load.0 p' q
          (λ r. elim (parse_and_check cjson r.config) [
            | none ↦ faults
            | some (ret, config) ↦
                and_then (ret, record r { config = config }) (initialize_and_run env)
          ])
          h in
      let (content, read, held) =
        loaded_by p.config load (env.fopen file)
          (load_configfile_result env.fopen (some file) p.config) e in
      let (config, parsed, h₂) = parsed_by env p' q (parse_and_check cjson load.1) h₁ in
      let (r, own, managed, counting, clients, h₃) =
        initialize_and_run-serves (record p' { config = config }) q h₂ in
      let (son, h₄) = run-serves env r q h₃ in
      record {
        file = file;
        rest = rest;
        named = refl;
        content = content;
        read = read;
        config = config;
        parsed = ap (parse_and_check cjson) (sym held) ∙ parsed;
        son = subst (IsSon env) own son;
        ready = r;
        own = own;
        managed = managed;
        counting = counting;
        clients = clients;
        started = run_master-Started env r q h₄;
      }
