-- ===== src/Serving/Steps.antt =====
-- Steps, and the turns of the thread of the signals, by their cases.
use srslog.Base.{ℕ, ◌≡◌, ◌≢◌, refl, ap, ◌∙◌, inl, inr, ◌⊎◌, true, false, Option, if◌then◌else◌}
use srslog.Base.Int.{ℤ}
use srslog.Clock.{Timeval}
use srslog.Config.{ConfigInfo}
use srslog.Signal.{SignalManager, Cycled, waits, faults, handled, holds, sig_catcher, open_read}
use srslog.Signal
use srslog.Descriptors.{Library}
use srslog.Serving.{
  Serving, Status, running, faulted, exited, Turn, signalled, signal_turn, turn, step,
}

module _ (st : Library) (st_netfd_open : ℤ → Option ℕ) (gettimeofday : ℕ → Option Timeval)
    (config : ConfigInfo) where
  pub signal_turn_idle :
      (v : Serving)
      → v.signals.started ≡ false
      → signal_turn st st_netfd_open gettimeofday config v ≡ v
  unfolding signal_turn
  signal_turn_idle v e =
      ap
        (λ b.
          if b
          then signalled st st_netfd_open gettimeofday config
              (Signal.cycle st_netfd_open v.signals v.books.server) v
          else v)
        e

  pub signal_turn_lem :
      (v : Serving) (r : Cycled)
      → v.signals.started ≡ true
      → Signal.cycle st_netfd_open v.signals v.books.server ≡ r
      → signal_turn st st_netfd_open gettimeofday config v
        ≡ signalled st st_netfd_open gettimeofday config r v
  unfolding signal_turn
  signal_turn_lem v r e c =
      ap
        (λ b.
          if b
          then signalled st st_netfd_open gettimeofday config
              (Signal.cycle st_netfd_open v.signals v.books.server) v
          else v)
        e
      ∙ ap (λ x. signalled st st_netfd_open gettimeofday config x v) c

  running_step :
      (t : Turn) (v : Serving) (p : Status)
      → v.status ≡ p
      → ((p ≡ running)
          × (step st st_netfd_open gettimeofday config t v
              ≡ turn st st_netfd_open gettimeofday config t v))
        ⊎ ((p ≢ running) × (step st st_netfd_open gettimeofday config t v ≡ v))
  unfolding step
  running_step t v running e =
      inl (
        refl,
        ap (λ p. elim p [ running ↦ turn st st_netfd_open gettimeofday config t v | _ ↦ v ]) e,
      )
  running_step t v faulted e = inr (
    (λ z. cc),
    ap (λ p. elim p [ running ↦ turn st st_netfd_open gettimeofday config t v | _ ↦ v ]) e,
  )
  running_step t v (exited ret) e = inr (
    (λ z. cc),
    ap (λ p. elim p [ running ↦ turn st st_netfd_open gettimeofday config t v | _ ↦ v ]) e,
  )

  -- A step is a turn of a running process, or nothing.
  pub status-cases :
      (t : Turn) (v : Serving)
      → ((v.status ≡ running)
          × (step st st_netfd_open gettimeofday config t v
              ≡ turn st st_netfd_open gettimeofday config t v))
        ⊎ ((v.status ≢ running) × (step st st_netfd_open gettimeofday config t v ≡ v))
  status-cases t v = running_step t v v.status refl
