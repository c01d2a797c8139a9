-- ===== src/Server/Listening.antt =====
-- The listener manager: closing by type, and listening at the configured ports.
use mathlib.Core.List.{append-nil, append_assoc}
use mathlib.Core.Bool.{false≢true}
use srslog.Base.{
  ℕ, suc, ◌≡◌, ◌≢◌, ◌↔◌, refl, sym, ◌∙◌, ap, inl, inr, Bool, true, false, not, none, some,
  Option-cases, List, [], ◌∷◌, ◌++◌, map, arith, Bool-cases, if◌then◌else◌,
}
use srslog.Base.Int.{ℤ, negsuc, eqb_ℤ, eqb→eq}
use srslog.ErrorCode.{success}
use srslog.Bytes.{Bytes, c_str, atoi}
use srslog.Config.{ConfigInfo, get_listen}
use srslog.Listener.{
  ListenerType, Listener, SocketEnv, type_eq, new_listener, listen, port_bits, open_and_start,
  server_listen_backlog, base,
}
use srslog.Server.{Server, Event, free_listener, close_listeners, listen_ports, listen_base}

-- The listeners that pass a test, in their order.
abbrev pub select : (Listener → Bool) → List Listener → List Listener
select p [] = []
select p (l ∷ ls) = if p l then l ∷ select p ls else select p ls

-- Closing the listeners of a type keeps the others in their order and frees exactly those of the
-- type, in their order.
pub close_listeners-select :
    (t : ListenerType) (ls : List Listener)
    → close_listeners t ls ≡ (
      select (λ l. not (type_eq l.ltype t)) ls,
      map free_listener (select (λ l. type_eq l.ltype t) ls),
    )
unfolding close_listeners
close_listeners-select t [] = refl
close_listeners-select t (l ∷ ls) = ground (arith, close_listeners-select t ls)

eqb_ne : (a b : ℤ) → a ≢ b → eqb_ℤ a b ≡ false
eqb_ne a b n = elim (Bool-cases (eqb_ℤ a b)) [ inl e ↦ absurd (n (eqb→eq a b e)) | inr e ↦ e ]

-- Every call that `listen` makes does what is asked.
pub record AllSucceed (env : SocketEnv) (port : ℤ) : Type 0 where
  pub creates : env.socket ≢ negsuc 0
  pub reuses : env.setsockopt env.socket ≢ negsuc 0
  pub binds : env.bind env.socket (port_bits port) ≢ negsuc 0
  pub listens : env.listen env.socket server_listen_backlog ≢ negsuc 0
  pub opens : env.open_socket env.socket ≢ none
  pub starts : env.start_thread ≡ success

listen_succeeds :
    (env : SocketEnv) (port : ℤ) (l : Listener)
    → (listen env port l).0 ≡ success
    → AllSucceed env port
unfolding listen open_and_start
listen_succeeds env port l h = record {
  creates = λ e. ground arith;
  reuses = λ e. ground arith;
  binds = λ e. ground arith;
  listens = λ e. ground arith;
  opens = λ e. ground arith;
  starts = ground arith;
}

listen_completes :
    (env : SocketEnv) (port : ℤ) (l : Listener)
    → AllSucceed env port
    → (listen env port l).0 ≡ success
unfolding listen open_and_start
listen_completes env port l a =
    rw
      (
        eqb_ne env.socket (negsuc 0) a.creates,
        eqb_ne (env.setsockopt env.socket) (negsuc 0) a.reuses,
        eqb_ne (env.bind env.socket (port_bits port)) (negsuc 0) a.binds,
        eqb_ne (env.listen env.socket server_listen_backlog) (negsuc 0) a.listens,
      )
      (elim (Option-cases (env.open_socket env.socket)) [
        | inl e ↦ absurd (a.opens e)
        | inr (s, e) ↦ rw (e, open_and_start) a.starts
      ])

-- A new listener listens exactly if every call succeeds, and runs its thread exactly then; it always
-- keeps its type and the port and descriptor that it was given.
pub listen_result :
    (env : SocketEnv) (port : ℤ) (t : ListenerType)
    → let (ret, l) = listen env port (new_listener t) in
      ((ret ≡ success) ↔ AllSucceed env port)
      × (l.started ≡ eqb_ℤ ret success)
      × (l.ltype ≡ t)
      × (l.port ≡ port)
      × (l.fd ≡ env.socket)
unfolding listen open_and_start
listen_result env port t = (
  (listen_succeeds env port (new_listener t), listen_completes env port (new_listener t)),
  ground arith,
  ground arith,
  ground arith,
  ground arith,
)

-- The ports that texts of the configuration stand for.
abbrev pub ports_of : List Bytes → List ℤ
ports_of = map (λ p. atoi (c_str p))

-- Listeners that run, one for each port, in order.
abbrev pub Serves : List ℤ → List Listener → Type 0
Serves [] [] = Unit
Serves [] (l ∷ ls) = ⊥
Serves (p ∷ ps) [] = ⊥
Serves (p ∷ ps) (l ∷ ls) = (l.port ≡ p) × (l.ltype ≡ base) × (l.started ≡ true) × Serves ps ls

listen_ports-Serves :
    (env : ℕ → SocketEnv) (i : ℕ) (ports : List Bytes) (kept : List Listener)
    → (listen_ports env i ports kept).0 ≡ success
    → (new : List Listener) × ((listen_ports env i ports kept).1 ≡ kept ++ new)
      × Serves (ports_of ports) new
unfolding listen_ports
listen_ports-Serves env i [] kept h = ([], sym (append-nil kept), tt)
listen_ports-Serves env i (p ∷ ports) kept h =
    let port = atoi (c_str p) in
    let l = (listen (env i) port (new_listener base)).1 in
    let r = listen_result (env i) port base in
    elim (Bool-cases (eqb_ℤ (listen (env i) port (new_listener base)).0 success)) [
      | inl done ↦
          let (new, e, serves) =
            listen_ports-Serves env (suc i) ports (kept ++ l ∷ []) (rw (done, listen_ports) at h) in
          (
            l ∷ new,
            rw (done, listen_ports) (e ∙ append_assoc kept (l ∷ []) new),
            (r.3, r.2, r.1 ∙ done, serves),
          )
      | inr failed ↦
          absurd
            (false≢true (sym failed ∙ ap (λ z. eqb_ℤ z success) (rw (failed, listen_ports) at h)))
    ]

-- What `listen_base` does when it returns success: the listeners of other types stay, those of the
-- base type are freed, and for each configured port a new one runs.
pub record Relistened (config : ConfigInfo) (s s' : Server) (events : List Event) : Type 0 where
  pub new : List Listener
  pub serves : Serves (ports_of (get_listen config)) new
  pub listeners : s'.listeners ≡ select (λ l. not (type_eq l.ltype base)) s.listeners ++ new
  pub freed : events ≡ map free_listener (select (λ l. type_eq l.ltype base) s.listeners)
  pub others : s' ≡ record s { listeners = s'.listeners }

-- When `listen` or a reload of the ports succeeds, exactly the base listeners have been replaced, by
-- one running listener for each configured port, and nothing else of the server has changed.
pub listen_base-Relistened :
    (config : ConfigInfo) (env : ℕ → SocketEnv) (s s' : Server) (events : List Event)
    → listen_base config env s ≡ some (success, s', events)
    → Relistened config s s' events
unfolding listen_base get_listen
listen_base-Relistened config env s s' events h =
    let kept = close_listeners base s.listeners in
    let split = close_listeners-select base s.listeners in
    let r = listen_ports env 0 (get_listen config) kept.0 in
    let result : (r.0 ≡ success) × (record s { listeners = r.1 } ≡ s') × (kept.1 ≡ events) =
      (ground arith, ground arith, ground arith) in
    let (new, e, serves) = listen_ports-Serves env 0 (get_listen config) kept.0 result.0 in
    record {
      new = new;
      serves = serves;
      listeners =
          ap (λ (x : Server). x.listeners) (sym result.1)
          ∙ e
          ∙ ap (λ (k : List Listener × List Event). k.0 ++ new) split;
      freed = sym result.2 ∙ ap (λ (k : List Listener × List Event). k.1) split;
      others = sym result.1 ∙ ap (λ (x : Server). record s { listeners = x.listeners }) result.1;
    }
