-- ===== src/Serving/Passes.antt =====
-- The clock under the turns of all threads: it is read in the passes of the main cycle, as if that
-- ran alone.
use mathlib.Core.Path.{subst}
use srslog.Base.{
  ℕ, suc, ◌+◌, ◌/◌, ◌%◌, ◌<◌, ◌≡◌, refl, sym, ap, ◌∙◌, inl, inr, Bool, true, false, Option, some,
  List, [], ◌∷◌, ltb, ◌==◌, arith, if◌then◌else◌,
}
use srslog.Base.Int.{ℤ, pos, ◌<ℤ◌}
use srslog.Clock.{Timeval, Clock, now_us, update_system_time_ms, updates}
use srslog.Clock.Uptime.{updates-Advances}
use srslog.Config.{ConfigInfo}
use srslog.Descriptors.{Library}
use srslog.Serving.{
  Serving, running, Turn, accepts, ends, catches, reads_signal, passes, step, serve,
}
use srslog.Serving.Steps.{status-cases}
use srslog.Serving.Seen.{stopped_stays}
use srslog.Serving.Clocks.{passed, turn-clock}

passed_cons : (t : Turn) (ts : List Turn) → passed (t ∷ ts) ≡ passed (t ∷ []) + passed ts
passed_cons (accepts i a) ts = omega arith
passed_cons (ends a stats) ts = omega arith
passed_cons (catches a) ts = omega arith
passed_cons reads_signal ts = omega arith
passed_cons passes ts = omega arith

-- Passes numbered from i on, of 99 a round: the readings of the clock among the first and the others.
due_step :
    (i i' m n : ℕ)
    → i < 99
    → i' ≡ (if ltb (suc i) 99 then suc i else 0)
    → n + (i' + 2) / 3 ≡ (i' + m + 2) / 3
    → (if (i % 3) == 0 then suc n else n) + (i + 2) / 3 ≡ (i + suc m + 2) / 3
due_step i i' m n small e h = ground arith

module _ (st : Library) (st_netfd_open : ℤ → Option ℕ) (gettimeofday : ℕ → Option Timeval)
    (config : ConfigInfo)
    (after_epoch : (n : ℕ) (tv : Timeval) → gettimeofday n ≡ some tv → pos 0 <ℤ now_us tv) where
  still_set :
      (c : Clock) (due : Bool)
      → pos 0 <ℤ c.cache_us
      → pos 0 <ℤ (if due then update_system_time_ms gettimeofday c else c).cache_us
  unfolding updates
  still_set c true h = (updates-Advances gettimeofday after_epoch 1 c h).running
  still_set c false h = h

  -- One reading more, or none.
  read_first :
      (n : ℕ) (c : Clock) (due : Bool)
      → updates gettimeofday n (if due then update_system_time_ms gettimeofday c else c)
        ≡ updates gettimeofday (if due then suc n else n) c
  unfolding updates
  read_first n c true = refl
  read_first n c false = refl

  -- Where the system's clock reads later than the epoch: while a process whose clock is set runs on,
  -- whatever turns its threads take, its clock is the one that the main cycle's readings alone give,
  -- and these are made in every third of the main cycle's passes, counted in rounds of 99.
  pub clock_of_passes :
      (ts : List Turn) (v : Serving)
      → v.pass < 99
      → pos 0 <ℤ v.books.clock.cache_us
      → (serve st st_netfd_open gettimeofday config ts v).status ≡ running
      → (n : ℕ) × ((serve st st_netfd_open gettimeofday config ts v).books.clock
          ≡ updates gettimeofday n v.books.clock)
        × (n + (v.pass + 2) / 3 ≡ (v.pass + passed ts + 2) / 3)
  unfolding serve updates
  clock_of_passes [] v small set r = (0, refl, omega arith)
  clock_of_passes (t ∷ ts) v small set r =
      let v' = step st st_netfd_open gettimeofday config t v in
      elim (status-cases st st_netfd_open gettimeofday config t v) [
        | inr (n, e) ↦
            let back : v.status ≡ v'.status = ap (λ (w : Serving). w.status) (sym e) in
            let kept =
              stopped_stays st st_netfd_open gettimeofday config ts v' (λ z. n (back ∙ z)) in
            absurd (n (back ∙ ap (λ (w : Serving). w.status) (sym kept) ∙ r))
        | inl (_, e) ↦
            let clock = ap (λ (w : Serving). w.books.clock) e in
            let pass = ap (λ (w : Serving). w.pass) e in
            elim (turn-clock st st_netfd_open gettimeofday config t v set) [
              | inl (zero_passed, (same, stays)) ↦
                  let (n, k, m) =
                    clock_of_passes ts v' (omega (arith, pass, stays, small))
                      (subst (λ (c : Clock). pos 0 <ℤ c.cache_us) (sym (clock ∙ same)) set) r in
                  (
                    n,
                    k ∙ ap (updates gettimeofday n) (clock ∙ same),
                    omega (arith, m, pass, stays, passed_cons t ts, zero_passed),
                  )
              | inr (one_passed, (reads, next)) ↦
                  let due = (v.pass % 3) == 0 in
                  let (n, k, m) =
                    clock_of_passes ts v' (ground (arith, pass, next))
                      (subst (λ (c : Clock). pos 0 <ℤ c.cache_us) (sym (clock ∙ reads))
                        (still_set v.books.clock due set))
                      r in
                  (
                    (if due then suc n else n),
                    k
                        ∙ ap (updates gettimeofday n) (clock ∙ reads)
                        ∙ read_first n v.books.clock due,
                    omega (
                      arith,
                      due_step v.pass v'.pass (passed ts) n small (pass ∙ next) m,
                      passed_cons t ts,
                      one_passed,
                    ),
                  )
            ]
      ]
