-- ===== src/Server/Manager.antt =====
-- The connection manager over a history of accepted clients and removed connections.
use mathlib.Core.List.{append-nil}
use srslog.Base.{
  ℕ, ◌+◌, ◌≤◌, ◌≡◌, refl, ap, inl, inr, ◌⊎◌, true, Option, none, some, Option-cases, List, [], ◌∷◌,
  ◌++◌, arith, length, length-append, Bool-cases, ◌==◌, if◌then◌else◌,
}
use srslog.Base.Int.{pos, pos_part, leb_ℤ}
use srslog.Clock.{Timeval, Clock}
use srslog.Kbps.{Statistic}
use srslog.Config.{ConfigInfo, get_max_connections}
use srslog.Listener.{ListenerType, rtmp_stream, base}
use srslog.Server.{
  Server, Event, free_listener, free_conn, close_client, close_pid_file, contains, erase, AcceptEnv,
  accept_client, remove,
}

-- How often a connection stands in a list.
abbrev pub count : ℕ → List ℕ → ℕ
count a [] = 0
count a (c ∷ cs) = (if c == a then 1 else 0) + count a cs

count-append : (conn : ℕ) (cs ds : List ℕ) → count conn cs + count conn ds ≡ count conn (cs ++ ds)
count-append conn [] ds = ground arith
count-append conn (c ∷ cs) ds = ground (arith, count-append conn cs ds)

count-erase :
    (a conn : ℕ) (cs : List ℕ)
    → contains conn cs ≡ true
    → count a (erase conn cs) + (if conn == a then 1 else 0) ≡ count a cs
unfolding contains erase
count-erase a conn [] h = cc
count-erase a conn (c ∷ cs) h = ground (arith, count-erase a conn cs)

pub length-erase : (conn : ℕ) (cs : List ℕ) → length (erase conn cs) ≤ length cs
unfolding erase
length-erase conn [] = omega arith
length-erase conn (c ∷ cs) = ground (arith, length-erase conn cs)

-- How often a connection is freed.
abbrev pub freed : ℕ → List Event → ℕ
freed a [] = 0
freed a (free_conn c ∷ es) = (if c == a then 1 else 0) + freed a es
freed a (free_listener l ∷ es) = freed a es
freed a (close_client c ∷ es) = freed a es
freed a (close_pid_file f ∷ es) = freed a es

freed-append : (a : ℕ) (xs ys : List Event) → freed a (xs ++ ys) ≡ freed a xs + freed a ys
freed-append a [] ys = omega arith
freed-append a (free_conn c ∷ xs) ys = omega (arith, freed-append a xs ys)
freed-append a (free_listener l ∷ xs) ys = freed-append a xs ys
freed-append a (close_client c ∷ xs) ys = freed-append a xs ys
freed-append a (close_pid_file f ∷ xs) ys = freed-append a xs ys

pub data Call : Type 0 where
  accepts : AcceptEnv → ListenerType → ℕ → Call
  removes : ℕ → (ℕ → Statistic) → Call

-- The server, its clock, what it freed or closed, and the connections that it took in.
pub record Run : Type 0 where
  pub server : Server
  pub clock : Clock
  pub events : List Event
  pub created : List ℕ

-- The connection that an accepted client becomes.
abbrev pub taken : ConfigInfo → AcceptEnv → ListenerType → Server → List ℕ
taken config env rtmp_stream s = []
taken config env base s =
    if leb_ℤ (get_max_connections config) (pos (length s.conns)) then [] else env.address ∷ []

-- After a fault nothing more happens.
abbrev pub after : Run → Option (Server × Clock × List Event) → Run
after r none = r
after r (some (s, c, es)) = record r { server = s; clock = c; events = r.events ++ es }

module _ (gettimeofday : ℕ → Option Timeval) (config : ConfigInfo) where
  abbrev pub step : Run → Call → Run
  step r (accepts env t client) =
      let (_, s, es) = accept_client config env t client r.server in
      record r {
        server = s;
        events = r.events ++ es;
        created = r.created ++ taken config env t r.server;
      }
  step r (removes conn stats) = after r (remove gettimeofday conn stats r.server r.clock)

  abbrev pub run : Run → List Call → Run
  run r [] = r
  run r (c ∷ cs) = run (step r c) cs

-- Every connection that was taken in is in the manager or was freed, as often.
abbrev pub Balanced : Run → Type 0
Balanced r = (a : ℕ) → count a r.created ≡ count a r.server.conns + freed a r.events

module _ (gettimeofday : ℕ → Option Timeval) (config : ConfigInfo) where
  accept-Balanced :
      (r : Run) (env : AcceptEnv) (t : ListenerType) (client : ℕ)
      → Balanced r
      → Balanced (step gettimeofday config r (accepts env t client))
  unfolding accept_client
  accept-Balanced r env rtmp_stream client h a =
      ground (arith, h a, append-nil r.created, freed-append a r.events (close_client client ∷ []))
  accept-Balanced r env base client h a = ground (
    arith,
    h a,
    append-nil r.created,
    append-nil r.events,
    count-append a r.created (env.address ∷ []),
    count-append a r.server.conns (env.address ∷ []),
    freed-append a r.events (close_client client ∷ []),
  )

  remove-cases :
      (conn : ℕ) (stats : ℕ → Statistic) (r : Run)
      → let r' = after r (remove gettimeofday conn stats r.server r.clock) in
        (r'.created ≡ r.created)
        × ((r' ≡ r)
            ⊎ ((contains conn r.server.conns ≡ true)
                × (r'.server.conns ≡ erase conn r.server.conns)
                × (r'.events ≡ r.events ++ free_conn conn ∷ [])))
  unfolding remove
  remove-cases conn stats r = elim (Bool-cases (contains conn r.server.conns)) [
    | inl held ↦ elim (Option-cases r.server.kbps) [
      | inl e ↦ rw (held, e, remove) (refl, inl refl)
      | inr (k, e) ↦ rw (held, e, remove) (refl, inr (refl, refl, refl))
    ]
    | inr absent ↦
        rw (absent, remove) (refl, inl (ap (λ es. record r { events = es }) (append-nil r.events)))
  ]

  remove-Balanced :
      (r : Run) (conn : ℕ) (stats : ℕ → Statistic)
      → Balanced r
      → Balanced (step gettimeofday config r (removes conn stats))
  remove-Balanced r conn stats h a = remove_balances (remove-cases conn stats r) (h a)
    where
      r' : Run
      r' = after r (remove gettimeofday conn stats r.server r.clock)

      remove_balances :
          (r'.created ≡ r.created)
            × ((r' ≡ r)
                ⊎ ((contains conn r.server.conns ≡ true)
                    × (r'.server.conns ≡ erase conn r.server.conns)
                    × (r'.events ≡ r.events ++ free_conn conn ∷ [])))
          → count a r.created ≡ count a r.server.conns + freed a r.events
          → count a r'.created ≡ count a r'.server.conns + freed a r'.events
      remove_balances (_, inl same) b = rw same b
      remove_balances (e, inr (held, c, f)) b =
          rw (e, c, f)
            (omega (
              arith,
              b,
              count-erase a conn r.server.conns held,
              freed-append a r.events (free_conn conn ∷ []),
            ))

  pub run-Balanced :
      (r : Run) (cs : List Call) → Balanced r → Balanced (run gettimeofday config r cs)
  run-Balanced r [] h = h
  run-Balanced r (accepts env t client ∷ cs) h =
      run-Balanced (step gettimeofday config r (accepts env t client)) cs
        (accept-Balanced r env t client h)
  run-Balanced r (removes conn stats ∷ cs) h =
      run-Balanced (step gettimeofday config r (removes conn stats)) cs
        (remove-Balanced r conn stats h)

  abbrev pub Bounded : Run → Type 0
  Bounded r = length r.server.conns ≤ pos_part (get_max_connections config)

  step-Bounded : (r : Run) (c : Call) → Bounded r → Bounded (step gettimeofday config r c)
  unfolding accept_client
  step-Bounded r (accepts env rtmp_stream client) h = ground arith
  step-Bounded r (accepts env base client) h =
      ground (arith, length-append r.server.conns (env.address ∷ []))
  step-Bounded r (removes conn stats) h = shrinks (remove-cases conn stats r)
    where
      r' : Run
      r' = after r (remove gettimeofday conn stats r.server r.clock)

      shrinks :
          (r'.created ≡ r.created)
            × ((r' ≡ r)
                ⊎ ((contains conn r.server.conns ≡ true)
                    × (r'.server.conns ≡ erase conn r.server.conns)
                    × (r'.events ≡ r.events ++ free_conn conn ∷ [])))
          → Bounded r'
      shrinks (_, inl same) = rw same h
      shrinks (_, inr (_, c, _)) = rw c (omega (arith, h, length-erase conn r.server.conns))

  pub run-Bounded : (r : Run) (cs : List Call) → Bounded r → Bounded (run gettimeofday config r cs)
  run-Bounded r [] h = h
  run-Bounded r (c ∷ cs) h = run-Bounded (step gettimeofday config r c) cs (step-Bounded r c h)

pub contains-append : (conn : ℕ) (cs : List ℕ) → contains conn (cs ++ conn ∷ []) ≡ true
unfolding contains
contains-append conn [] = ground arith
contains-append conn (c ∷ cs) = ground (arith, contains-append conn cs)
