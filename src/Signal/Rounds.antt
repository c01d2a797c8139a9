-- ===== src/Signal/Rounds.antt =====
-- The two ways that a round of the signal manager's thread goes.
use srslog.Base.{
  ℕ, ◌≡◌, ◌≢◌, refl, ◌∙◌, ap, inl, inr, ◌⊎◌, Option, none, some, Option-cases, List, [], ◌∷◌, arith,
}
use srslog.Base.Int.{ℤ}
use srslog.Server.{Server, on_signal}
use srslog.Signal.{SignalManager, waits, handled, open_read, cycle}

-- `m'` is `m` but for the handle and the signals that are still in the pipe.
pub record Continues (m m' : SignalManager) (rest : List ℕ) : Type 0 where
  pub queue : m'.queue ≡ rest
  pub installed : m'.installed ≡ m.installed
  pub started : m'.started ≡ m.started
  pub read_end : m'.read_end ≡ m.read_end

abbrev pub Waited : (ℤ → Option ℕ) → SignalManager → Server → Type 0
Waited st_netfd_open m s =
    (m' : SignalManager) × (m.queue ≡ []) × Continues m m' [] × (cycle st_netfd_open m s ≡ waits m')

abbrev pub Handled : (ℤ → Option ℕ) → SignalManager → Server → Type 0
Handled st_netfd_open m s =
    (m' : SignalManager) × (signo : ℕ) × (rest : List ℕ) × (m.queue ≡ signo ∷ rest)
    × Continues m m' rest
    × (cycle st_netfd_open m s ≡ handled m' (on_signal signo s))

module _ (st_netfd_open : ℤ → Option ℕ) where
  open_read-Continues :
      (m : SignalManager) (rest : List ℕ)
      → Continues m (record (open_read st_netfd_open m) { queue = rest }) rest
  unfolding open_read
  open_read-Continues m rest = ground arith

  has_handle :
      (m : SignalManager)
      → st_netfd_open m.read_end ≢ none
      → (k : ℕ) × ((open_read st_netfd_open m).read_stfd ≡ some k)
  unfolding open_read
  has_handle m opens = elim (Option-cases m.read_stfd) [
    | inr (k, e) ↦ (k, rw (open_read, e) e)
    | inl e ↦ elim (Option-cases (st_netfd_open m.read_end)) [
      | inl n ↦ absurd (opens n)
      | inr (k, n) ↦ (k, rw (open_read, e) n)
    ]
  ]

  same_queue : (m : SignalManager) → (open_read st_netfd_open m).queue ≡ m.queue
  unfolding open_read
  same_queue m = ground arith

  queue_cases : (q : List ℕ) → (q ≡ []) ⊎ ((a : ℕ) × (r : List ℕ) × (q ≡ a ∷ r))
  queue_cases [] = inl refl
  queue_cases (a ∷ r) = inr (a, r, refl)

  waits-Continues : (m : SignalManager) → m.queue ≡ [] → Continues m (open_read st_netfd_open m) []
  unfolding open_read
  waits-Continues m e = ground arith

  pub cycle-cases :
      (m : SignalManager) (s : Server)
      → st_netfd_open m.read_end ≢ none
      → Waited st_netfd_open m s ⊎ Handled st_netfd_open m s
  unfolding cycle
  cycle-cases m s opens =
      let m' = open_read st_netfd_open m in
      let (k, reads) = has_handle m opens in
      elim (queue_cases m.queue) [
        | inl e ↦ inl (m', e, waits-Continues m e, rw (cycle, reads, same_queue m ∙ e))
        | inr (a, r, e) ↦ inr (
          record m' { queue = r },
          a,
          r,
          e,
          open_read-Continues m r,
          rw (cycle, reads, same_queue m ∙ e)
              (ap (λ o. handled (record m' { queue = r; read_stfd = o }) (on_signal a s)) reads),
        )
      ]
