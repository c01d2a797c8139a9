-- ===== src/Serving/Seen.antt =====
-- What a step of the running process does to the signals, and what the turns ahead bring.
use mathlib.Core.List.{append-nil, append_assoc}
use mathlib.Core.Path.{subst}
use srslog.Base.{
  ℕ, suc, ◌≡◌, ◌≢◌, refl, sym, ap, ◌∙◌, inl, inr, ◌⊎◌, Option, none, List, [], ◌∷◌, ◌++◌,
}
use srslog.Base.Int.{ℤ}
use srslog.Clock.{Timeval}
use srslog.Config.{ConfigInfo}
use srslog.Descriptors.{Library}
use srslog.Serving.{
  Serving, Status, running, faulted, Turn, accepts, ends, catches, reads_signal, passes, turn, step,
  serve,
}
use srslog.Serving.Steps.{status-cases}
use srslog.Serving.Turns.{
  Keeps, entering, Ended, WentOn, NothingRead, accept_turn-Keeps, end_turn-Keeps, pass_turn-Keeps,
  catch-Keeps, signal_turn-cases,
}

-- The signals that come, of those with a handler.
abbrev pub caught : List ℕ → List Turn → List ℕ
caught installed [] = []
caught installed (catches a ∷ ts) = entering installed a ++ caught installed ts
caught installed (accepts i a ∷ ts) = caught installed ts
caught installed (ends a stats ∷ ts) = caught installed ts
caught installed (reads_signal ∷ ts) = caught installed ts
caught installed (passes ∷ ts) = caught installed ts

-- The turns of the thread of the signals.
abbrev pub reads : List Turn → ℕ
reads [] = 0
reads (reads_signal ∷ ts) = suc (reads ts)
reads (accepts i a ∷ ts) = reads ts
reads (ends a stats ∷ ts) = reads ts
reads (catches a ∷ ts) = reads ts
reads (passes ∷ ts) = reads ts

module _ (st : Library) (st_netfd_open : ℤ → Option ℕ) (gettimeofday : ℕ → Option Timeval)
    (config : ConfigInfo) where
  abbrev pub stepped : Turn → Serving → Serving
  stepped t v = step st st_netfd_open gettimeofday config t v

  abbrev pub served : List Turn → Serving → Serving
  served ts v = serve st st_netfd_open gettimeofday config ts v

  -- A process that does not run stays as it is.
  pub stopped_stays : (ts : List Turn) (v : Serving) → v.status ≢ running → served ts v ≡ v
  unfolding serve
  stopped_stays [] v h = refl
  stopped_stays (t ∷ ts) v h = elim (status-cases st st_netfd_open gettimeofday config t v) [
    | inl (r, e) ↦ absurd (h r)
    | inr (n, e) ↦ ap (served ts) e ∙ stopped_stays ts v h
  ]

  pub running_turn :
      (t : Turn) (v : Serving)
      → v.status ≡ running
      → stepped t v ≡ turn st st_netfd_open gettimeofday config t v
  running_turn t v r = elim (status-cases st st_netfd_open gettimeofday config t v) [
    | inl (_, e) ↦ e
    | inr (n, e) ↦ absurd (n r)
  ]

  -- What a step of a running process does to the signals, whatever the turn.
  abbrev pub Seen : Turn → Serving → Serving → Type 0
  Seen t v v' =
      ((reads (t ∷ []) ≡ 0) × Keeps v v' (v.signals.queue ++ caught v.signals.installed (t ∷ [])))
      ⊎ (v'.status ≡ faulted)
      ⊎ ((t ≡ reads_signal) × (NothingRead v v' ⊎ Ended v v' ⊎ WentOn v v'))

  unread :
      (t : Turn) (v v' : Serving)
      → reads (t ∷ []) ≡ 0
      → caught v.signals.installed (t ∷ []) ≡ []
      → Keeps v v' v.signals.queue
      → Seen t v v'
  unread t v v' r c k = inl (
    r,
    subst (Keeps v v') (sym (ap (λ q. v.signals.queue ++ q) c ∙ append-nil v.signals.queue)) k,
  )

  turn-Seen :
      (t : Turn) (v : Serving)
      → st_netfd_open v.signals.read_end ≢ none
      → Seen t v (turn st st_netfd_open gettimeofday config t v)
  unfolding turn
  turn-Seen (accepts i a) v opens =
      unread (accepts i a) v _ refl refl
        (accept_turn-Keeps st st_netfd_open gettimeofday config i a v)
  turn-Seen (ends a stats) v opens =
      elim (end_turn-Keeps st st_netfd_open gettimeofday config a stats v) [
        | inl k ↦ unread (ends a stats) v _ refl refl k
        | inr f ↦ inr (inl f)
      ]
  turn-Seen (catches a) v opens = inl (
    refl,
    subst (Keeps v _) (ap (λ q. v.signals.queue ++ q) (sym (append-nil _)))
        (catch-Keeps st st_netfd_open gettimeofday config a v),
  )
  turn-Seen reads_signal v opens =
      inr (inr (refl, signal_turn-cases st st_netfd_open gettimeofday config v opens))
  turn-Seen passes v opens =
      unread passes v _ refl refl (pass_turn-Keeps st st_netfd_open gettimeofday config v)

  pub step-Seen :
      (t : Turn) (v : Serving)
      → st_netfd_open v.signals.read_end ≢ none
      → v.status ≡ running
      → Seen t v (stepped t v)
  step-Seen t v opens r = subst (Seen t v) (sym (running_turn t v r)) (turn-Seen t v opens)

  pub caught_cons :
      (ins : List ℕ) (t : Turn) (ts : List Turn)
      → caught ins (t ∷ ts) ≡ caught ins (t ∷ []) ++ caught ins ts
  caught_cons ins (accepts i a) ts = refl
  caught_cons ins (ends a stats) ts = refl
  caught_cons ins (catches a) ts = ap (λ q. q ++ caught ins ts) (sym (append-nil (entering ins a)))
  caught_cons ins reads_signal ts = refl
  caught_cons ins passes ts = refl

  -- The signals in the pipe and those that come, before a step and behind it.
  pub pending_step :
      (t : Turn) (ts : List Turn) (v v' : Serving)
      → Keeps v v' (v.signals.queue ++ caught v.signals.installed (t ∷ []))
      → v.signals.queue ++ caught v.signals.installed (t ∷ ts)
        ≡ v'.signals.queue ++ caught v'.signals.installed ts
  pending_step t ts v v' k =
      ap (λ q. v.signals.queue ++ q) (caught_cons v.signals.installed t ts)
      ∙ sym (
          append_assoc v.signals.queue (caught v.signals.installed (t ∷ []))
            (caught v.signals.installed ts))
      ∙ ap (λ q. q ++ caught v.signals.installed ts) (sym k.queue)
      ∙ ap (λ i. v'.signals.queue ++ caught i ts) (sym k.installed)

  pub unchanged :
      (t : Turn) (v v' : Serving)
      → t ≡ reads_signal
      → Keeps v v' v.signals.queue
      → Keeps v v' (v.signals.queue ++ caught v.signals.installed (t ∷ []))
  unchanged t v v' e k =
      subst (λ x. Keeps v v' (v.signals.queue ++ caught v.signals.installed (x ∷ []))) (sym e)
        (subst (Keeps v v') (sym (append-nil v.signals.queue)) k)

  pub still_opens :
      (v v' : Serving) {q : List ℕ}
      → Keeps v v' q
      → st_netfd_open v.signals.read_end ≢ none
      → st_netfd_open v'.signals.read_end ≢ none
  still_opens v v' k opens e = opens (ap st_netfd_open (sym k.read_end) ∙ e)

  pub stopped_status :
      (ts : List Turn) (v : Serving) (p : Status)
      → v.status ≡ p
      → p ≢ running
      → (served ts v).status ≡ p
  stopped_status ts v p e n =
      ap (λ (w : Serving). w.status) (stopped_stays ts v (λ r. n (sym e ∙ r))) ∙ e
