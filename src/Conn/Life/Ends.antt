-- ===== src/Conn/Life/Ends.antt =====
-- The thread of a connection comes to its end.
use srslog.Base.{
  ℕ, suc, ◌-◌, ◌≤◌, ◌≡◌, ◌≢◌, refl, ◌∙◌, ap, true, Option, none, List, [], ◌∷◌, drop, arith,
}
use srslog.Bytes.{Bytes}
use srslog.Clock.{Timeval, Clock}
use srslog.Kbps.{Statistic}
use srslog.Address.{Sockaddr}
use srslog.Context.{ThreadContext}
use srslog.Thread.{
  Place, absent, created, starting, waiting, before, cycling, ending, sleeping, stopping, exited,
  in_start, wake, wait_cid, stop_loop, thread_step,
}
use srslog.Server.{Server, contains, erase}
use srslog.Conn.{base_cycle}
use srslog.Conn.Life.{
  Client, Turn, thread_turn, parent_turn, conn_cycle, on_thread_stop, callback, take_turn,
  run_turns, accepted,
}
use srslog.Conn.Life.Lives.{Lives, lifetime, conns_at, to_come, accepted-Lives}
use srslog.Conn.Life.Once.{turn-Lives, run-Lives}

-- The turns that the thread needs once `start` has come back, at most.
abbrev left : Place → ℕ
left absent = 0
left created = 6
left starting = 5
left waiting = 5
left before = 4
left cycling = 3
left ending = 2
left sleeping = 0
left stopping = 1
left exited = 0

abbrev pub thread_turns : List Turn → ℕ
thread_turns [] = 0
thread_turns (thread_turn ∷ ts) = suc (thread_turns ts)
thread_turns (parent_turn ∷ ts) = thread_turns ts

module _ (inet_ntop : ℕ → Bytes → Option Bytes) (getpeername : ℕ → Option Sockaddr)
    (gettimeofday : ℕ → Option Timeval) (stats : ℕ → Statistic) (address : ℕ) (s₀ : Server) where
  abbrev turn : Client → Turn → Client
  turn = take_turn inet_ntop getpeername gettimeofday stats address

  parent_stays :
      (c : Client)
      → Lives address s₀ c
      → c.system.caller ≢ in_start
      → ((turn c parent_turn).system.caller ≢ in_start)
        × ((turn c parent_turn).system.place ≡ c.system.place)
  unfolding take_turn wake wait_cid
  parent_stays c h b = (λ e. ground arith, ground arith)

  thread_goes :
      (c : Client) (p : Place)
      → c.system.place ≡ p
      → Lives address s₀ c
      → c.system.caller ≢ in_start
      → ((turn c thread_turn).system.caller ≢ in_start)
        × (left (turn c thread_turn).system.place ≤ left p - 1)
  unfolding take_turn callback thread_step conn_cycle base_cycle on_thread_stop stop_loop
  thread_goes c absent e h b = (λ i. ground arith, ground arith)
  thread_goes c created e h b = (λ i. ground arith, ground arith)
  thread_goes c starting e h b = (λ i. ground arith, ground arith)
  thread_goes c waiting e h b = (λ i. ground arith, ground arith)
  thread_goes c before e h b = (λ i. ground arith, ground arith)
  thread_goes c cycling e h b = (λ i. ground arith, ground arith)
  thread_goes c ending e h b = (λ i. ground arith, ground arith)
  thread_goes c sleeping e h b = (λ i. ground arith, ground arith)
  thread_goes c stopping e h b = (λ i. ground arith, ground arith)
  thread_goes c exited e h b = (λ i. ground arith, ground arith)

  left-run :
      (c : Client) (ts : List Turn)
      → contains address s₀.conns ≡ true
      → Lives address s₀ c
      → c.system.caller ≢ in_start
      → left (run_turns inet_ntop getpeername gettimeofday stats address c ts).system.place
        ≤ left c.system.place - thread_turns ts
  unfolding run_turns
  left-run c [] i h b = omega arith
  left-run c (thread_turn ∷ ts) i h b =
      let (b', less) = thread_goes c c.system.place refl h b in
      omega (
        arith,
        less,
        left-run (turn c thread_turn) ts i
            (turn-Lives inet_ntop getpeername gettimeofday stats address s₀ c thread_turn i h) b',
      )
  left-run c (parent_turn ∷ ts) i h b =
      let (b', same) = parent_stays c h b in
      omega (
        arith,
        ap left same,
        left-run (turn c parent_turn) ts i
            (turn-Lives inet_ntop getpeername gettimeofday stats address s₀ c parent_turn i h) b',
      )

  left_six : (p : Place) → left p ≤ 6
  left_six p = ground arith

  left_none : (p : Place) → p ≢ absent → p ≢ sleeping → left p ≤ 0 → p ≡ exited
  left_none p a s h = ground arith

  module _ (client self : ℕ) (context : ThreadContext) (clock : Clock) (ts us : List Turn) where
    abbrev pub reached : Client
    reached =
        run_turns inet_ntop getpeername gettimeofday stats address
          (accepted client self context s₀ clock) ts

    abbrev pub later : Client
    later = run_turns inet_ntop getpeername gettimeofday stats address reached us

    -- Once `start` has come back to `accept_client`, a connection whose thread gets six turns more has
    -- ended: it has made all its callbacks, each once, and the manager has let exactly it go.
    pub connection_ends :
        contains address s₀.conns ≡ true
        → s₀.kbps ≢ none
        → reached.system.caller ≢ in_start
        → 6 ≤ thread_turns us
        → (later.system.place ≡ exited)
          × (later.system.trace ≡ lifetime)
          × (later.server.conns ≡ erase address s₀.conns)
    connection_ends held counting back six =
        let h =
          run-Lives inet_ntop getpeername gettimeofday stats address s₀
            (accepted client self context s₀ clock) ts held
            (accepted-Lives address client self context s₀ clock counting) in
        let h' = run-Lives inet_ntop getpeername gettimeofday stats address s₀ reached us held h in
        let ended =
          left_none later.system.place h'.running.0 h'.running.1
            (omega (arith, left-run reached us held h back, left_six reached.system.place)) in
        (
          ended,
          h'.callbacks ∙ ap (λ p. drop (to_come p) lifetime) ended,
          h'.kept ∙ ap (conns_at address s₀) ended,
        )
