-- ===== src/Clock/Jumps.antt =====
-- The uptime after any readings of the system's clock, jumps included.
use mathlib.Core.Path.{subst}
use srslog.Base.{
  sym, ap, ℕ, zero, suc, ◌≡◌, refl, ◌∙◌, inl, inr, Option, none, some, arith, Option-cases,
  if◌then◌else◌,
}
use srslog.Base.Int.{ℤ, pos, ◌+ℤ◌, ◌-ℤ◌, ◌<ℤ◌, ltb_ℤ, int_laws}
use srslog.Clock.{Timeval, Clock, jump_us, now_us, set_time, update_system_time_ms, updates}
use srslog.Clock.Uptime.{uptime_us}

-- What a step of the system's clock adds: nothing where it goes more than 300 seconds ahead.
abbrev pub counted : ℤ → ℤ
counted step = if ltb_ℤ jump_us step then pos 0 else step

set_time-uptime :
    (now : ℤ) (c : Clock)
    → pos 0 <ℤ c.cache_us
    → uptime_us (set_time now c) ≡ uptime_us c +ℤ counted (now -ℤ c.cache_us)
unfolding set_time
set_time-uptime now c h = grind int_laws

set_time-cache :
    (now : ℤ) (c : Clock) → ((set_time now c).cache_us ≡ now) × ((set_time now c).calls ≡ c.calls)
unfolding set_time
set_time-cache now c = ground arith

regroup : (u v w e : ℤ) → u ≡ v +ℤ w → u +ℤ e ≡ v +ℤ (w +ℤ e)
regroup u v w e h = grind int_laws

module _ (gettimeofday : ℕ → Option Timeval) where
  -- The sum over `n` readings from the i-th on, of which the one before gave `last`; a reading that
  -- fails is passed over.
  abbrev pub earned : ℕ → ℕ → ℤ → ℤ
  earned zero i last = pos 0
  earned (suc n) i last = elim (gettimeofday i) [
    | none ↦ earned n (suc i) last
    | some tv ↦ counted (now_us tv -ℤ last) +ℤ earned n (suc i) (now_us tv)
  ]

  earned-none :
      (n i : ℕ) (last : ℤ) → gettimeofday i ≡ none → earned (suc n) i last ≡ earned n (suc i) last
  earned-none n i last e = rw (earned, e) refl

  earned-some :
      (n i : ℕ) (last : ℤ) (tv : Timeval)
      → gettimeofday i ≡ some tv
      → earned (suc n) i last ≡ counted (now_us tv -ℤ last) +ℤ earned n (suc i) (now_us tv)
  earned-some n i last tv e = rw (earned, e) refl

  set_time-earned :
      (n : ℕ) (now : ℤ) (c : Clock)
      → pos 0 <ℤ c.cache_us
      → let c' = set_time now c in
        uptime_us c' +ℤ earned n c'.calls c'.cache_us
        ≡ uptime_us c +ℤ (counted (now -ℤ c.cache_us) +ℤ earned n c.calls now)
  set_time-earned n now c h =
      let c' = set_time now c in
      let (set, same) = set_time-cache now c in
      ap (λ x. uptime_us c' +ℤ earned n x c'.cache_us) same
      ∙ ap (λ x. uptime_us c' +ℤ earned n c.calls x) set
      ∙ regroup (uptime_us c') (uptime_us c) (counted (now -ℤ c.cache_us)) (earned n c.calls now)
          (set_time-uptime now c h)

  module _
      (after_epoch : (n : ℕ) (tv : Timeval) → gettimeofday n ≡ some tv → pos 0 <ℤ now_us tv) where
    update-earned :
        (n : ℕ) (c : Clock)
        → pos 0 <ℤ c.cache_us
        → let c' = update_system_time_ms gettimeofday c in
          (pos 0 <ℤ c'.cache_us)
          × (uptime_us c' +ℤ earned n c'.calls c'.cache_us
              ≡ uptime_us c +ℤ earned (suc n) c.calls c.cache_us)
    unfolding update_system_time_ms
    update-earned n c h = elim (Option-cases (gettimeofday c.calls)) [
      | inl e ↦ rw (e, update_system_time_ms) (h, rw (earned-none n c.calls c.cache_us e) refl)
      | inr (tv, e) ↦
          let c' = record c { calls = suc c.calls } in
          rw (e, update_system_time_ms)
            (
              subst (λ t. pos 0 <ℤ t) (sym (set_time-cache (now_us tv) c').0)
                  (after_epoch c.calls tv e),
              set_time-earned n (now_us tv) c' h
                  ∙ ap (λ x. uptime_us c +ℤ x) (sym (earned-some n c.calls c.cache_us tv e)),
            )
    ]

    -- Where the system's clock reads later than the epoch, the uptime after n updates of a set
    -- clock is what it was and the steps of the system's clock between the readings, of which those
    -- of more than 300 seconds ahead count nothing, and those back count in full: a jump back is
    -- taken off the uptime.
    pub updates-earned :
        (n : ℕ) (c : Clock)
        → pos 0 <ℤ c.cache_us
        → uptime_us (updates gettimeofday n c) ≡ uptime_us c +ℤ earned n c.calls c.cache_us
    unfolding updates
    updates-earned zero c h = omega int_laws
    updates-earned (suc n) c h =
        let (set, step) = update-earned n c h in
        updates-earned n (update_system_time_ms gettimeofday c) set ∙ step
