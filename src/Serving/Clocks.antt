-- ===== src/Serving/Clocks.antt =====
-- What each turn does to the clock and to the pass of the main cycle.
use srslog.Base.{
  ℕ, suc, ◌%◌, ◌≡◌, refl, ap, inl, inr, ◌⊎◌, true, Option, none, some, Option-cases, List, [], ◌∷◌,
  ltb, ◌==◌, arith, if◌then◌else◌,
}
use srslog.Base.Int.{ℤ, pos, ◌<ℤ◌}
use srslog.Clock.{Timeval, Clock, update_system_time_ms, get_system_time_ms}
use srslog.Kbps.{Statistic, Kbps, sample, sample_slice}
use srslog.Config.{ConfigInfo}
use srslog.Signal.{SignalManager, Cycled, waits, faults, handled, sig_catcher}
use srslog.Signal
use srslog.Server.{Server, Event, AcceptEnv, goes_on, exits, contains, resample_conn}
use srslog.Server
use srslog.Server.Cycle.{tick, max_ticks_lem}
use srslog.Descriptors.{Library, Books, arrive, leave, book}
use srslog.Serving.{
  Serving, Turn, accepts, ends, catches, reads_signal, passes, untouched, accept_turn, end_turn,
  catch, signalled, signal_turn, pass_turn, turn,
}

-- The passes of the main cycle among some turns.
abbrev pub passed : List Turn → ℕ
passed [] = 0
passed (passes ∷ ts) = suc (passed ts)
passed (accepts i a ∷ ts) = passed ts
passed (ends a stats ∷ ts) = passed ts
passed (catches a ∷ ts) = passed ts
passed (reads_signal ∷ ts) = passed ts

module _ (gettimeofday : ℕ → Option Timeval) where
  -- A set clock is read from the cache.
  resample_conn-clock :
      (a : ℕ) (k : Kbps) (stats : ℕ → Statistic) (c : Clock)
      → pos 0 <ℤ c.cache_us
      → (resample_conn gettimeofday true a k stats c).1 ≡ c
  unfolding resample_conn sample sample_slice get_system_time_ms
  resample_conn-clock a k stats c h = ground arith

  remove-clock :
      (a : ℕ) (stats : ℕ → Statistic) (s : Server) (c : Clock) (s' : Server) (c' : Clock)
      (es : List Event)
      → pos 0 <ℤ c.cache_us
      → Server.remove gettimeofday a stats s c ≡ some (s', c', es)
      → c' ≡ c
  unfolding Server.remove
  remove-clock a stats s c s' c' es h e = elim (Option-cases s.kbps) [
    | inl n ↦ ground arith
    | inr (k, n) ↦ ground (arith, resample_conn-clock a k stats c h)
  ]

module _ (st : Library) (st_netfd_open : ℤ → Option ℕ) (gettimeofday : ℕ → Option Timeval)
    (config : ConfigInfo) where
  -- A turn that is no pass leaves the clock and the pass alone.
  abbrev pub Still : Serving → Serving → Type 0
  Still v v' = (v'.books.clock ≡ v.books.clock) × (v'.pass ≡ v.pass)

  accept-Still :
      (i : ℕ) (a : Option (ℕ × AcceptEnv)) (v : Serving)
      → Still v (accept_turn st st_netfd_open gettimeofday config i a v)
  unfolding accept_turn book arrive
  accept-Still i none v = ground arith
  accept-Still i (some (h, env)) v = ground arith

  leave-clock :
      (a : ℕ) (stats : ℕ → Statistic) (b : Books)
      → pos 0 <ℤ b.clock.cache_us
      → (leave st gettimeofday config untouched a stats b).clock ≡ b.clock
  unfolding leave
  leave-clock a stats b h =
      elim (Option-cases (Server.remove gettimeofday a stats b.server b.clock)) [
        | inl e ↦ rw (e, leave) refl
        | inr ((s', c', es), e) ↦
            rw (e, leave) (remove-clock gettimeofday a stats b.server b.clock s' c' es h e)
      ]

  end-Still :
      (a : ℕ) (stats : ℕ → Statistic) (v : Serving)
      → pos 0 <ℤ v.books.clock.cache_us
      → Still v (end_turn st st_netfd_open gettimeofday config a stats v)
  unfolding end_turn book
  end-Still a stats v h =
      elim (Option-cases (Server.remove gettimeofday a stats v.books.server v.books.clock)) [
        | inl e ↦ rw (e, end_turn) (refl, refl)
        | inr ((s', c', es), e) ↦ rw (e, end_turn) (leave-clock a stats v.books h, refl)
      ]

  signalled-Still :
      (r : Cycled) (v : Serving) → Still v (signalled st st_netfd_open gettimeofday config r v)
  signalled-Still (waits m) v = (refl, refl)
  signalled-Still faults v = (refl, refl)
  signalled-Still (handled m (goes_on s)) v = (refl, refl)
  signalled-Still (handled m exits) v = (refl, refl)

  signal-Still : (v : Serving) → Still v (signal_turn st st_netfd_open gettimeofday config v)
  unfolding signal_turn
  signal-Still v =
      ground (arith, signalled-Still (Signal.cycle st_netfd_open v.signals v.books.server) v)

  catch-Still : (a : ℕ) (v : Serving) → Still v (catch st st_netfd_open gettimeofday config a v)
  unfolding catch
  catch-Still a v = ground arith

  -- A pass reads the clock in every third.
  abbrev pub Passed : Serving → Serving → Type 0
  Passed v v' =
      (v'.books.clock ≡ (
        if (v.pass % 3) == 0
        then update_system_time_ms gettimeofday v.books.clock
        else v.books.clock))
      × (v'.pass ≡ (if ltb (suc v.pass) 99 then suc v.pass else 0))

  pass-Passed : (v : Serving) → Passed v (pass_turn st st_netfd_open gettimeofday config v)
  unfolding pass_turn tick
  pass-Passed v = (
    refl,
    ap (λ n. if ltb (suc v.pass) n then suc v.pass else 0) (max_ticks_lem gettimeofday config),
  )

  pub turn-clock :
      (t : Turn) (v : Serving)
      → pos 0 <ℤ v.books.clock.cache_us
      → let v' = turn st st_netfd_open gettimeofday config t v in
        ((passed (t ∷ []) ≡ 0) × Still v v') ⊎ ((passed (t ∷ []) ≡ 1) × Passed v v')
  unfolding turn
  turn-clock (accepts i a) v h = inl (refl, accept-Still i a v)
  turn-clock (ends a stats) v h = inl (refl, end-Still a stats v h)
  turn-clock (catches a) v h = inl (refl, catch-Still a v)
  turn-clock reads_signal v h = inl (refl, signal-Still v)
  turn-clock passes v h = inr (refl, pass-Passed v)
