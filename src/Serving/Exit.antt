-- ===== src/Serving/Exit.antt =====
-- The serving process ends on a fatal signal, and on nothing else.
use srslog.Base.{
  ℕ, ◌≡◌, ◌≢◌, sym, ap, ◌∙◌, inl, inr, true, false, ◌||◌, Option, none, List, [], ◌∷◌, ◌++◌,
}
use srslog.Base.Int.{ℤ, pos}
use srslog.Clock.{Timeval}
use srslog.Config.{ConfigInfo}
use srslog.Signal.Order.{is_fatal, any_fatal}
use srslog.Descriptors.{Library}
use srslog.Serving.{Serving, running, faulted, exited, Turn, serve}
use srslog.Serving.Seen.{
  caught, stepped, step-Seen, pending_step, unchanged, still_opens, stopped_status,
}

head_fatal :
    (q : List ℕ) (a : ℕ) (rest xs : List ℕ)
    → q ≡ a ∷ rest
    → is_fatal a ≡ true
    → any_fatal (q ++ xs) ≡ true
head_fatal q a rest xs e fatal =
    ap (λ x. any_fatal (x ++ xs)) e ∙ ap (λ b. b || any_fatal (rest ++ xs)) fatal

head_mild :
    (q : List ℕ) (a : ℕ) (rest xs : List ℕ)
    → q ≡ a ∷ rest
    → is_fatal a ≡ false
    → any_fatal (q ++ xs) ≡ any_fatal (rest ++ xs)
head_mild q a rest xs e mild =
    ap (λ x. any_fatal (x ++ xs)) e ∙ ap (λ b. b || any_fatal (rest ++ xs)) mild

module _ (st : Library) (st_netfd_open : ℤ → Option ℕ) (gettimeofday : ℕ → Option Timeval)
    (config : ConfigInfo) where
  -- A running process that has exited behind some turns, whatever these are, where `st` takes the
  -- read end of the pipe, has done so with code 0, and one of the signals that were in the pipe or
  -- came to a handler on the way was SIGINT, SIGUSR2 or SIGTERM.
  pub only_fatal_ends :
      (ts : List Turn) (v : Serving) (code : ℤ)
      → v.status ≡ running
      → st_netfd_open v.signals.read_end ≢ none
      → (serve st st_netfd_open gettimeofday config ts v).status ≡ exited code
      → (code ≡ pos 0) × (any_fatal (v.signals.queue ++ caught v.signals.installed ts) ≡ true)
  unfolding serve
  only_fatal_ends [] v code r opens h = absurd (running_exited (sym r ∙ h))
    where
      running_exited : running ≡ exited code → ⊥
      running_exited e = cc
  only_fatal_ends (t ∷ ts) v code r opens h =
      let v' = stepped st st_netfd_open gettimeofday config t v in
      elim (step-Seen st st_netfd_open gettimeofday config t v opens r) [
        | inl (_, k) ↦
            let (done, fatal) =
              only_fatal_ends ts v' code (k.status ∙ r)
                (still_opens st st_netfd_open gettimeofday config v v' k opens) h in
            (
              done,
              ap any_fatal (pending_step st st_netfd_open gettimeofday config t ts v v' k) ∙ fatal,
            )
        | inr (inl f) ↦ absurd (
            not_both (
              sym
                (stopped_status st st_netfd_open gettimeofday config ts v' faulted f faulted_stops)
              ∙ h))
        | inr (inr (e, inl (_, k))) ↦
            let (done, fatal) =
              only_fatal_ends ts v' code (k.status ∙ r)
                (still_opens st st_netfd_open gettimeofday config v v' k opens) h in
            (
              done,
              ap any_fatal (
                    pending_step st st_netfd_open gettimeofday config t ts v v'
                      (unchanged st st_netfd_open gettimeofday config t v v' e k))
                  ∙ fatal,
            )
        | inr (inr (e, inr (inl (a, rest, q, fatal, s)))) ↦ (
          code_of (
              sym (
                stopped_status st st_netfd_open gettimeofday config ts v' (exited (pos 0)) s
                  exited_stops)
              ∙ h),
          head_fatal v.signals.queue a rest (caught v.signals.installed (t ∷ ts)) q fatal,
        )
        | inr (inr (e, inr (inr (a, rest, q, mild, k)))) ↦
            let (done, fatal) =
              only_fatal_ends ts v' code (k.status ∙ r)
                (still_opens st st_netfd_open gettimeofday config v v' k opens) h in
            (
              done,
              ap (λ x. any_fatal (v.signals.queue ++ caught v.signals.installed (x ∷ ts))) e
                  ∙ head_mild v.signals.queue a rest (caught v.signals.installed ts) q mild
                  ∙ ap (λ x. any_fatal (x ++ caught v.signals.installed ts)) (sym k.queue)
                  ∙ ap (λ x. any_fatal (v'.signals.queue ++ caught x ts)) (sym k.installed)
                  ∙ fatal,
            )
      ]
    where
      not_both : faulted ≡ exited code → ⊥
      not_both e = cc

      faulted_stops : faulted ≢ running
      faulted_stops e = cc

      exited_stops : exited (pos 0) ≢ running
      exited_stops e = cc

      code_of : exited (pos 0) ≡ exited code → code ≡ pos 0
      code_of e = cc
