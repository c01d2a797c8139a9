-- ===== src/Serving/Delivery.antt =====
-- A fatal signal in the pipe ends the process.
use srslog.Base.{
  ℕ, suc, ◌+◌, ◌≤◌, ◌≡◌, ◌≢◌, refl, sym, ap, ◌∙◌, inl, inr, true, false, ◌||◌, Option, List, [],
  ◌∷◌, ◌++◌, length, arith, if◌then◌else◌,
}
use srslog.Base.Int.{ℤ, pos}
use srslog.Clock.{Timeval}
use srslog.Config.{ConfigInfo}
use srslog.Signal.Order.{is_fatal, any_fatal}
use srslog.Descriptors.{Table, Library}
use srslog.Descriptors.Closing.{KeepsOthers}
use srslog.Serving.{
  Serving, running, exited, Turn, accepts, ends, catches, reads_signal, passes, serve,
}
use srslog.Serving.Sound.{Sound, step-Sound}
use srslog.Serving.Seen.{caught, reads, stepped, served, step-Seen, stopped_status}

-- The place of the first fatal signal.
abbrev depth : List ℕ → ℕ
depth [] = 0
depth (a ∷ q) = if is_fatal a then 1 else suc (depth q)

depth-le-length : (q : List ℕ) → depth q ≤ length q
depth-le-length [] = omega arith
depth-le-length (a ∷ q) = ground (arith, depth-le-length q)

depth-append : (q xs : List ℕ) → any_fatal q ≡ true → depth (q ++ xs) ≡ depth q
depth-append [] xs h = cc
depth-append (a ∷ q) xs h = ground (arith, depth-append q xs)

any_fatal-append : (xs ys : List ℕ) → any_fatal (xs ++ ys) ≡ (any_fatal xs || any_fatal ys)
any_fatal-append [] ys = refl
any_fatal-append (x ∷ xs) ys = ground (arith, any_fatal-append xs ys)

depth_pos : (q : List ℕ) → any_fatal q ≡ true → 1 ≤ depth q
depth_pos [] h = cc
depth_pos (a ∷ q) h = ground (arith, depth_pos q)

depth_mild :
    (q : List ℕ) (a : ℕ) (rest : List ℕ)
    → q ≡ a ∷ rest
    → is_fatal a ≡ false
    → any_fatal q ≡ true
    → (any_fatal rest ≡ true) × (depth q ≡ suc (depth rest))
depth_mild q a rest e mild h = (
  sym (ap any_fatal e ∙ ap (λ b. b || any_fatal rest) mild) ∙ h,
  ap depth e ∙ ap (λ b. if b then 1 else suc (depth rest)) mild,
)

reads_cons : (t : Turn) (ts : List Turn) → reads (t ∷ ts) ≡ reads (t ∷ []) + reads ts
reads_cons (accepts i a) ts = omega arith
reads_cons (ends a stats) ts = omega arith
reads_cons (catches a) ts = omega arith
reads_cons reads_signal ts = omega arith
reads_cons passes ts = omega arith

module _ (st : Library) (keeps : KeepsOthers st) (st_netfd_open : ℤ → Option ℕ)
    (gettimeofday : ℕ → Option Timeval) (config : ConfigInfo) (t₀ : Table) where
  by_depth :
      (ts : List Turn) (v : Serving)
      → Sound st st_netfd_open config t₀ v
      → v.status ≡ running
      → v.signals.started ≡ true
      → any_fatal v.signals.queue ≡ true
      → depth v.signals.queue ≤ reads ts
      → (served st st_netfd_open gettimeofday config ts v).status ≡ exited (pos 0)
  unfolding serve
  by_depth [] v s r on fatal d = absurd (omega (arith, depth_pos v.signals.queue fatal))
  by_depth (t ∷ ts) v s r on fatal d =
      let v' = stepped st st_netfd_open gettimeofday config t v in
      let s' = step-Sound st keeps st_netfd_open gettimeofday config t₀ t v s in
      elim (step-Seen st st_netfd_open gettimeofday config t v s.opens r) [
        | inl (idle, k) ↦
            let more = caught v.signals.installed (t ∷ []) in
            by_depth ts v' s' (k.status ∙ r) (k.started ∙ on)
              (ap any_fatal k.queue
                ∙ any_fatal-append v.signals.queue more
                ∙ ap (λ b. b || any_fatal more) fatal)
              (omega (
                arith,
                d,
                ap depth k.queue ∙ depth-append v.signals.queue more fatal,
                reads_cons t ts,
                idle,
              ))
        | inr (inl f) ↦ absurd (s'.alive f)
        | inr (inr (e, inl (inl off, _))) ↦ absurd (on_off (sym on ∙ off))
        | inr (inr (e, inl (inr empty, _))) ↦ absurd (on_off (sym fatal ∙ ap any_fatal empty))
        | inr (inr (e, inr (inl (a, rest, q, _, x)))) ↦
            stopped_status st st_netfd_open gettimeofday config ts v' (exited (pos 0)) x
              exited_stops
        | inr (inr (e, inr (inr (a, rest, q, mild, k)))) ↦
            let (later, shorter) = depth_mild v.signals.queue a rest q mild fatal in
            by_depth ts v' s' (k.status ∙ r) (k.started ∙ on) (ap any_fatal k.queue ∙ later)
              (omega (arith, d, ap depth k.queue, shorter, ap (λ x. reads (x ∷ ts)) e))
      ]
    where
      on_off : true ≡ false → ⊥
      on_off e = cc

      exited_stops : exited (pos 0) ≢ running
      exited_stops e = cc

  -- Once a signal among SIGINT, SIGUSR2 and SIGTERM is in the pipe of a sound, running process whose
  -- signal thread runs, the process has exited with code 0 as soon as that thread has had as many
  -- turns as there were signals in the pipe, whatever turns the other threads take between.
  pub fatal_signal_ends :
      (ts : List Turn) (v : Serving)
      → Sound st st_netfd_open config t₀ v
      → v.status ≡ running
      → v.signals.started ≡ true
      → any_fatal v.signals.queue ≡ true
      → length v.signals.queue ≤ reads ts
      → (serve st st_netfd_open gettimeofday config ts v).status ≡ exited (pos 0)
  fatal_signal_ends ts v s r on fatal n =
      by_depth ts v s r on fatal (omega (arith, n, depth-le-length v.signals.queue))
