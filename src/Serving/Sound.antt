-- ===== src/Serving/Sound.antt =====
-- What holds of the serving process whatever turns its threads take.
use mathlib.Core.Path.{subst}
use srslog.Base.{
  ℕ, ◌+◌, ◌≤◌, ◌≡◌, ◌≢◌, sym, ap, ◌∙◌, inl, inr, false, Option, none, some, Option-cases,
  Bool-cases, List, [], ◌∷◌, length, get_elem?, arith,
}
use srslog.Base.Int.{ℤ, pos, pos_part}
use srslog.Clock.{Timeval, Clock}
use srslog.Kbps.{Statistic}
use srslog.Config.{ConfigInfo, get_max_connections}
use srslog.Signal.{SignalManager, handled, holds, sig_catcher}
use srslog.Signal.Order.{is_fatal, on_signal_fatal, on_signal_mild}
use srslog.Signal.Rounds.{cycle-cases}
use srslog.Server.{Server, AcceptEnv, on_signal}
use srslog.Server.Cycle.{tick_lem}
use srslog.Descriptors.{Table, Library, Books, Call, arrives, leaves, book}
use srslog.Descriptors.Closing.{KeepsOthers}
use srslog.Descriptors.Clients.{Accounted, bit, uses, book-Accounted}
use srslog.Serving.{
  Serving, faulted, exited, Turn, accepts, ends, catches, reads_signal, passes, untouched,
  accept_turn, end_turn, catch, signalled, signal_turn, pass_turn, turn, step, serve,
}
use srslog.Serving.Calls.{remove_keeps, arrives_keeps, leaves_keeps}
use srslog.Serving.Steps.{signal_turn_idle, signal_turn_lem, status-cases}

not_faulted : (ret : ℤ) → exited ret ≢ faulted
not_faulted ret e = cc

-- The process has not failed, its connections are within the maximum and have a descriptor each,
-- and what its threads use is there.
pub record Sound (st : Library) (st_netfd_open : ℤ → Option ℕ) (config : ConfigInfo) (t₀ : Table)
    (v : Serving) : Type 0 where
  pub alive : v.status ≢ faulted
  pub bounded : length v.books.server.conns ≤ pos_part (get_max_connections config)
  pub accounted : Accounted st t₀ v.books
  pub counting : v.books.server.kbps ≢ none
  pub opens : st_netfd_open v.signals.read_end ≢ none

module _ (st : Library) (keeps : KeepsOthers st) (st_netfd_open : ℤ → Option ℕ)
    (gettimeofday : ℕ → Option Timeval) (config : ConfigInfo) (t₀ : Table) where
  abbrev Holds : Serving → Type 0
  Holds v = Sound st st_netfd_open config t₀ v

  abbrev booked : Books → Call → Books
  booked b c = book st gettimeofday config untouched b c

  booked-Sound :
      (b' : Books) (v : Serving)
      → length b'.server.conns ≤ pos_part (get_max_connections config)
      → b'.server.kbps ≢ none
      → Accounted st t₀ b'
      → Holds v
      → Holds (record v { books = b' })
  booked-Sound b' v l k acc s = record {
    alive = s.alive;
    bounded = l;
    accounted = acc;
    counting = k;
    opens = s.opens;
  }

  accept_turn-Sound :
      (i : ℕ) (a : Option (ℕ × AcceptEnv)) (v : Serving)
      → Holds v
      → Holds (accept_turn st st_netfd_open gettimeofday config i a v)
  unfolding accept_turn
  accept_turn-Sound i none v s = elim (Option-cases (get_elem? v.books.server.listeners i)) [
    | inl e ↦ rw (e, accept_turn) s
    | inr (l, e) ↦ elim (Bool-cases l.started) [
      | inl r ↦ rw (e, r, accept_turn) s
      | inr r ↦ rw (e, r, accept_turn) s
    ]
  ]
  accept_turn-Sound i (some (h, env)) v s =
      elim (Option-cases (get_elem? v.books.server.listeners i)) [
        | inl e ↦ rw (e, accept_turn) s
        | inr (l, e) ↦ elim (Bool-cases l.started) [
          | inr r ↦ rw (e, r, accept_turn) s
          | inl r ↦
              let c = arrives env l.ltype h in
              let (n, k) = arrives_keeps st gettimeofday config env l.ltype h v.books s.bounded in
              rw (e, r, accept_turn)
                (booked-Sound (booked v.books c) v n (λ z. s.counting (sym k ∙ z))
                  (book-Accounted st keeps gettimeofday config untouched t₀ v.books c s.accounted)
                  s)
        ]
      ]

  end_turn-Sound :
      (a : ℕ) (stats : ℕ → Statistic) (v : Serving)
      → Holds v
      → Holds (end_turn st st_netfd_open gettimeofday config a stats v)
  unfolding end_turn
  end_turn-Sound a stats v s =
      let (_, _, _, e, _, _, _) =
        remove_keeps gettimeofday a stats v.books.server v.books.clock s.counting in
      let (n, k) = leaves_keeps st gettimeofday config a stats v.books s.counting in
      rw (e, end_turn)
        (booked-Sound (booked v.books (leaves a stats)) v (omega (arith, n, s.bounded)) k
          (book-Accounted st keeps gettimeofday config untouched t₀ v.books (leaves a stats)
            s.accounted)
          s)

  catch-Sound :
      (a : ℕ) (v : Serving) → Holds v → Holds (catch st st_netfd_open gettimeofday config a v)
  unfolding catch sig_catcher
  catch-Sound a v s = elim (Bool-cases (holds a v.signals.installed)) [
    | inl e ↦
        rw (e, catch)
          (record {
            alive = s.alive;
            bounded = s.bounded;
            accounted = s.accounted;
            counting = s.counting;
            opens = s.opens;
          })
    | inr e ↦ rw (e, catch) s
  ]

  waited-Sound :
      (m : SignalManager) (v : Serving)
      → m.read_end ≡ v.signals.read_end
      → Holds v
      → Holds (record v { signals = m })
  waited-Sound m v e s = record {
    alive = s.alive;
    bounded = s.bounded;
    accounted = s.accounted;
    counting = s.counting;
    opens = λ z. s.opens (ap st_netfd_open (sym e) ∙ z);
  }

  handled-Sound :
      (m : SignalManager) (signo : ℕ) (v : Serving)
      → m.read_end ≡ v.signals.read_end
      → Holds v
      → Holds (
          signalled st st_netfd_open gettimeofday config
            (handled m (on_signal signo v.books.server))
            v)
  handled-Sound m signo v e s = elim (Bool-cases (is_fatal signo)) [
    | inl fatal ↦ rw (on_signal_fatal signo v.books.server fatal) (record {
      alive = not_faulted (pos 0);
      bounded = s.bounded;
      accounted = s.accounted;
      counting = s.counting;
      opens = λ z. s.opens (ap st_netfd_open (sym e) ∙ z);
    })
    | inr mild ↦ rw (on_signal_mild signo v.books.server mild) (record {
      alive = s.alive;
      bounded = s.bounded;
      accounted = s.accounted;
      counting = s.counting;
      opens = λ z. s.opens (ap st_netfd_open (sym e) ∙ z);
    })
  ]

  signal_turn-Sound :
      (v : Serving) → Holds v → Holds (signal_turn st st_netfd_open gettimeofday config v)
  signal_turn-Sound v s = elim (Bool-cases v.signals.started) [
    | inr e ↦ subst Holds (sym (signal_turn_idle st st_netfd_open gettimeofday config v e)) s
    | inl e ↦ elim (cycle-cases st_netfd_open v.signals v.books.server s.opens) [
      | inl (m, _, c, r) ↦
          subst Holds (sym (signal_turn_lem st st_netfd_open gettimeofday config v _ e r))
            (waited-Sound m v c.read_end s)
      | inr (m, signo, _, _, c, r) ↦
          subst Holds (sym (signal_turn_lem st st_netfd_open gettimeofday config v _ e r))
            (handled-Sound m signo v c.read_end s)
    ]
  ]

  pass_turn-Sound :
      (v : Serving) → Holds v → Holds (pass_turn st st_netfd_open gettimeofday config v)
  unfolding pass_turn
  pass_turn-Sound v s =
      let sc : Server × Clock = (v.books.server, v.books.clock) in
      let same = (tick_lem gettimeofday v.pass false sc).0 in
      record {
        alive = s.alive;
        bounded =
            subst (λ (x : Server). length x.conns ≤ pos_part (get_max_connections config))
              (sym same) s.bounded;
        accounted = λ d.
            subst
              (λ (x : Server).
                bit (v.books.table d) ≡ bit (t₀ d) + uses st v.books.handles x.conns d)
              (sym same) (s.accounted d);
        counting = subst (λ (x : Server). x.kbps ≢ none) (sym same) s.counting;
        opens = s.opens;
      }

  turn-Sound :
      (t : Turn) (v : Serving) → Holds v → Holds (turn st st_netfd_open gettimeofday config t v)
  unfolding turn
  turn-Sound (accepts i a) v s = accept_turn-Sound i a v s
  turn-Sound (ends a stats) v s = end_turn-Sound a stats v s
  turn-Sound (catches signo) v s = catch-Sound signo v s
  turn-Sound reads_signal v s = signal_turn-Sound v s
  turn-Sound passes v s = pass_turn-Sound v s

  pub step-Sound :
      (t : Turn) (v : Serving) → Holds v → Holds (step st st_netfd_open gettimeofday config t v)
  step-Sound t v s = elim (status-cases st st_netfd_open gettimeofday config t v) [
    | inl (_, e) ↦ subst Holds (sym e) (turn-Sound t v s)
    | inr (_, e) ↦ subst Holds (sym e) s
  ]

  pub serve-Sound :
      (ts : List Turn) (v : Serving)
      → Holds v
      → Holds (serve st st_netfd_open gettimeofday config ts v)
  unfolding serve
  serve-Sound [] v s = s
  serve-Sound (t ∷ ts) v s =
      serve-Sound ts (step st st_netfd_open gettimeofday config t v) (step-Sound t v s)
