-- ===== src/Conn/Life/Once.antt =====
-- Each callback is called once, and the manager keeps the connection until the last.
use mathlib.Core.Path.{subst}
use srslog.Base.{
  ℕ, ◌≡◌, ◌≢◌, refl, sym, ◌∙◌, ap, inl, inr, true, false, Option, none, some, Option-cases, List,
  [], ◌∷◌, drop, arith,
}
use srslog.Base.Int.{ℤ}
use srslog.Bytes.{Bytes}
use srslog.ErrorCode.{success}
use srslog.Clock.{Timeval, Clock}
use srslog.Kbps.{Statistic}
use srslog.Address.{Sockaddr}
use srslog.Context.{ThreadContext, get_id, generate_id}
use srslog.Thread.{
  Place, absent, created, starting, waiting, before, cycling, ending, sleeping, stopping, exited,
  System, wake, wait_cid, thread_step, self_of,
}
use srslog.Server.{Server, Event, free_conn, contains, erase}
use srslog.Server
use srslog.Conn.{base_cycle}
use srslog.Conn.Life.{
  Client, Turn, thread_turn, parent_turn, conn_cycle, on_thread_stop, callback, take_turn,
  run_turns, accepted,
}
use srslog.Conn.Life.Lives.{
  Lives, lifetime, conns_at, to_come, some_kbps, accepted-Lives, begun-Lives, cycled-Lives,
  removed-Lives,
}

module _ (inet_ntop : ℕ → Bytes → Option Bytes) (getpeername : ℕ → Option Sockaddr)
    (gettimeofday : ℕ → Option Timeval) (stats : ℕ → Statistic) (address : ℕ) (s₀ : Server) where
  abbrev pub turn : Client → Turn → Client
  turn = take_turn inet_ntop getpeername gettimeofday stats address

  remove_lem :
      (s : Server) (clock : Clock)
      → contains address s.conns ≡ true
      → s.kbps ≢ none
      → (s' : Server) × (clock' : Clock) × (es : List Event) × (Server.remove gettimeofday address
            stats s clock
          ≡ some (s', clock', es))
        × (s'.conns ≡ erase address s.conns)
        × (s'.kbps ≢ none)
  unfolding Server.remove
  remove_lem s clock held counting = elim (Option-cases s.kbps) [
    | inl e ↦ absurd (counting e)
    | inr (k, e) ↦
        let (k', clock') = Server.resample_conn gettimeofday true address k stats clock in
        (
          record s { conns = erase address s.conns; kbps = some k' },
          clock',
          free_conn address ∷ [],
          rw (held, e, Server.remove),
          refl,
          some_kbps k',
        )
  ]

  pub turn_of :
      (c c' : Client) (ret : ℤ) (s : System)
      → callback inet_ntop getpeername gettimeofday stats address c ≡ (ret, c')
      → thread_step ret c'.system ≡ s
      → record c' { system = s } ≡ turn c thread_turn
  unfolding take_turn
  turn_of c c' ret s cb st = sym (
      ap (λ (r : ℤ × Client). record (r.1) { system = thread_step r.0 r.1.system }) cb
      ∙ ap (λ s'. record c' { system = s' }) st)

  stop_lem :
      (c : Client) (s : Server) (clock : Clock) (es : List Event)
      → Server.remove gettimeofday address stats c.server c.clock ≡ some (s, clock, es)
      → on_thread_stop inet_ntop getpeername gettimeofday stats address c
        ≡ record c { server = s; clock = clock }
  unfolding on_thread_stop
  stop_lem c s clock es r = rw (r, on_thread_stop)

  parent-Lives : (c : Client) → Lives address s₀ c → Lives address s₀ (turn c parent_turn)
  unfolding take_turn wake wait_cid
  parent-Lives c h = ground arith

  thread-Lives :
      (c : Client) (p : Place)
      → contains address s₀.conns ≡ true
      → c.system.place ≡ p
      → Lives address s₀ c
      → Lives address s₀ (turn c thread_turn)
  unfolding take_turn callback thread_step base_cycle
  thread-Lives c absent i e h = ground arith
  thread-Lives c created i e h =
      subst (Lives address s₀) (turn_of c c success _ (simp (e, callback)) (simp (e, thread_step)))
        (begun-Lives address s₀ c h
          (get_id (self_of c.system.thread)
            (generate_id (self_of c.system.thread) c.system.context)).0
          (get_id (self_of c.system.thread)
            (generate_id (self_of c.system.thread) c.system.context)).1
          e)
  thread-Lives c starting i e h = ground arith
  thread-Lives c waiting i e h = ground arith
  thread-Lives c before i e h = ground arith
  thread-Lives c cycling i e h =
      let r =
        base_cycle inet_ntop getpeername (self_of c.system.thread) c.conn c.system.context
          c.system.thread in
      subst (Lives address s₀)
        (turn_of c (conn_cycle inet_ntop getpeername gettimeofday stats address c).1 success _
          (simp (e, callback)) (simp (e, thread_step)))
        (cycled-Lives address s₀ c h r.conn r.context (r.report ∷ c.reports) e)
  thread-Lives c ending i e h = ground arith
  thread-Lives c sleeping i e h = ground arith
  thread-Lives c stopping i e h =
      let (s, clock, es, r, erased, counting) =
        remove_lem c.server c.clock (ground arith) h.counting in
      subst (Lives address s₀)
        (turn_of c (record c { server = s; clock = clock }) success _
          (simp (e, callback, stop_lem c s clock es r)) (simp (e, thread_step)))
        (removed-Lives address s₀ c h s clock e erased counting)
  thread-Lives c exited i e h = ground arith

  pub turn-Lives :
      (c : Client) (t : Turn)
      → contains address s₀.conns ≡ true
      → Lives address s₀ c
      → Lives address s₀ (turn c t)
  turn-Lives c thread_turn i h = thread-Lives c c.system.place i refl h
  turn-Lives c parent_turn i h = parent-Lives c h

  pub run-Lives :
      (c : Client) (ts : List Turn)
      → contains address s₀.conns ≡ true
      → Lives address s₀ c
      → Lives address s₀ (run_turns inet_ntop getpeername gettimeofday stats address c ts)
  unfolding run_turns
  run-Lives c [] i h = h
  run-Lives c (t ∷ ts) i h = run-Lives (turn c t) ts i (turn-Lives c t i h)

  module _ (client self : ℕ) (context : ThreadContext) (clock : Clock) (ts : List Turn) where
    abbrev pub reached : Client
    reached =
        run_turns inet_ntop getpeername gettimeofday stats address
          (accepted client self context s₀ clock) ts

    -- Whatever the schedule, the thread of an accepted connection has called, in this order and each
    -- once, those of `on_thread_start`, `on_before_cycle`, `cycle`, `on_end_cycle` and
    -- `on_thread_stop` that stand before or at its place; the manager holds the connection until the thread is at its end, and
    -- then no longer; and no null pointer is met.
    pub connection_lives :
        contains address s₀.conns ≡ true
        → s₀.kbps ≢ none
        → (reached.system.trace ≡ drop (to_come reached.system.place) lifetime)
          × (reached.server.conns ≡ conns_at address s₀ reached.system.place)
          × (reached.faulted ≡ false)
    connection_lives held counting =
        let h =
          run-Lives (accepted client self context s₀ clock) ts held
            (accepted-Lives address client self context s₀ clock counting) in
        (h.callbacks, h.kept, h.sound)
