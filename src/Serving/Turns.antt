-- ===== src/Serving/Turns.antt =====
-- What each turn does to the signals in the pipe and to the status of the process.
use srslog.Base.{
  ℕ, ◌≡◌, ◌≢◌, refl, sym, ap, ◌∙◌, inl, inr, ◌⊎◌, true, false, Option, none, some, Option-cases,
  Bool-cases, List, [], ◌∷◌, ◌++◌, arith, if◌then◌else◌,
}
use mathlib.Core.List.{append-nil}
use mathlib.Core.Path.{subst}
use srslog.Base.Int.{ℤ, pos}
use srslog.Clock.{Timeval}
use srslog.Kbps.{Statistic}
use srslog.Config.{ConfigInfo}
use srslog.Signal.{SignalManager, handled, holds, sig_catcher}
use srslog.Signal.Order.{is_fatal, on_signal_fatal, on_signal_mild}
use srslog.Signal.Rounds.{Continues, cycle-cases}
use srslog.Server.{Server, AcceptEnv, on_signal}
use srslog.Server
use srslog.Descriptors.{Library}
use srslog.Serving.{
  Serving, faulted, exited, accept_turn, end_turn, catch, signal_turn, pass_turn, signalled,
}
use srslog.Serving.Steps.{signal_turn_idle, signal_turn_lem}

-- `v'` is `v` but for the books, the pass and the signals in the pipe, which are `q`.
pub record Keeps (v v' : Serving) (q : List ℕ) : Type 0 where
  pub queue : v'.signals.queue ≡ q
  pub installed : v'.signals.installed ≡ v.signals.installed
  pub started : v'.signals.started ≡ v.signals.started
  pub read_end : v'.signals.read_end ≡ v.signals.read_end
  pub status : v'.status ≡ v.status

same_signals-Keeps :
    (v v' : Serving) → v'.signals ≡ v.signals → v'.status ≡ v.status → Keeps v v' v.signals.queue
same_signals-Keeps v v' e s = record {
  queue = ap (λ (m : SignalManager). m.queue) e;
  installed = ap (λ (m : SignalManager). m.installed) e;
  started = ap (λ (m : SignalManager). m.started) e;
  read_end = ap (λ (m : SignalManager). m.read_end) e;
  status = s;
}

Continues-Keeps :
    (v v' : Serving) (m : SignalManager) (rest : List ℕ)
    → Continues v.signals m rest
    → v'.signals ≡ m
    → v'.status ≡ v.status
    → Keeps v v' rest
Continues-Keeps v v' m rest c e s = record {
  queue = ap (λ (m : SignalManager). m.queue) e ∙ c.queue;
  installed = ap (λ (m : SignalManager). m.installed) e ∙ c.installed;
  started = ap (λ (m : SignalManager). m.started) e ∙ c.started;
  read_end = ap (λ (m : SignalManager). m.read_end) e ∙ c.read_end;
  status = s;
}

-- The signal as it enters the pipe.
abbrev pub entering : List ℕ → ℕ → List ℕ
entering installed a = if holds a installed then a ∷ [] else []

-- A number was read from the pipe; the process ended, or went on.
abbrev pub Ended : Serving → Serving → Type 0
Ended v v' =
    (a : ℕ) × (rest : List ℕ) × (v.signals.queue ≡ a ∷ rest)
    × (is_fatal a ≡ true)
    × (v'.status ≡ exited (pos 0))

abbrev pub WentOn : Serving → Serving → Type 0
WentOn v v' =
    (a : ℕ) × (rest : List ℕ) × (v.signals.queue ≡ a ∷ rest)
    × (is_fatal a ≡ false)
    × Keeps v v' rest

-- Nothing was read: there is no thread to read it, or nothing to read.
abbrev pub NothingRead : Serving → Serving → Type 0
NothingRead v v' =
    ((v.signals.started ≡ false) ⊎ (v.signals.queue ≡ [])) × Keeps v v' v.signals.queue

module _ (st : Library) (st_netfd_open : ℤ → Option ℕ) (gettimeofday : ℕ → Option Timeval)
    (config : ConfigInfo) where
  pub accept_turn-Keeps :
      (i : ℕ) (a : Option (ℕ × AcceptEnv)) (v : Serving)
      → Keeps v (accept_turn st st_netfd_open gettimeofday config i a v) v.signals.queue
  unfolding accept_turn
  accept_turn-Keeps i none v = ground arith
  accept_turn-Keeps i (some (h, env)) v = ground arith

  pub end_turn-Keeps :
      (a : ℕ) (stats : ℕ → Statistic) (v : Serving)
      → let v' = end_turn st st_netfd_open gettimeofday config a stats v in
        Keeps v v' v.signals.queue ⊎ (v'.status ≡ faulted)
  unfolding end_turn
  end_turn-Keeps a stats v =
      elim (Option-cases (Server.remove gettimeofday a stats v.books.server v.books.clock)) [
        | inl e ↦ inr (rw (e, end_turn) refl)
        | inr (r, e) ↦ inl (rw (e, end_turn) (same_signals-Keeps v _ refl refl))
      ]

  pub pass_turn-Keeps :
      (v : Serving) → Keeps v (pass_turn st st_netfd_open gettimeofday config v) v.signals.queue
  unfolding pass_turn
  pass_turn-Keeps v = same_signals-Keeps v _ refl refl

  pub catch-Keeps :
      (a : ℕ) (v : Serving)
      → Keeps v
          (catch st st_netfd_open gettimeofday config a v)
          (v.signals.queue ++ entering v.signals.installed a)
  unfolding catch sig_catcher
  catch-Keeps a v = elim (Bool-cases (holds a v.signals.installed)) [
    | inl e ↦ ground (arith, e)
    | inr e ↦ ground (arith, e, append-nil v.signals.queue)
  ]

  pub signal_turn-cases :
      (v : Serving)
      → st_netfd_open v.signals.read_end ≢ none
      → let v' = signal_turn st st_netfd_open gettimeofday config v in
        NothingRead v v' ⊎ Ended v v' ⊎ WentOn v v'
  signal_turn-cases v opens = elim (Bool-cases v.signals.started) [
    | inr off ↦
        let p = signal_turn_idle st st_netfd_open gettimeofday config v off in
        inl (
          inl off,
          same_signals-Keeps v _ (ap (λ (w : Serving). w.signals) p)
              (ap (λ (w : Serving). w.status) p),
        )
    | inl on ↦ elim (cycle-cases st_netfd_open v.signals v.books.server opens) [
      | inl (m, empty, c, r) ↦
          let p = signal_turn_lem st st_netfd_open gettimeofday config v _ on r in
          inl (
            inr empty,
            subst (Keeps v _) (sym empty) (
                Continues-Keeps v _ m [] c (ap (λ (w : Serving). w.signals) p)
                  (ap (λ (w : Serving). w.status) p)),
          )
      | inr (m, a, rest, q, c, r) ↦
          let p = signal_turn_lem st st_netfd_open gettimeofday config v _ on r in
          elim (Bool-cases (is_fatal a)) [
            | inl fatal ↦
                let p' =
                  p
                  ∙ ap (λ g. signalled st st_netfd_open gettimeofday config (handled m g) v)
                      (on_signal_fatal a v.books.server fatal) in
                inr (inl (a, rest, q, fatal, ap (λ (w : Serving). w.status) p'))
            | inr mild ↦
                let p' =
                  p
                  ∙ ap (λ g. signalled st st_netfd_open gettimeofday config (handled m g) v)
                      (on_signal_mild a v.books.server mild) in
                inr (
                  inr (
                    a,
                    rest,
                    q,
                    mild,
                    Continues-Keeps v _ m rest c (ap (λ (w : Serving). w.signals) p')
                        (ap (λ (w : Serving). w.status) p'),
                  ))
          ]
    ]
  ]
