-- ===== src/Server/Cycle.antt =====
-- The main cycle, `SrsServer::do_cycle` of src/base/app_server.cpp, built without SRS_AUTO_STAT and
-- SRS_AUTO_GPERF_MC, and how often it updates the clock.
use srslog.Base.{
  ℕ, zero, suc, ◌+◌, ◌*◌, ◌/◌, ◌%◌, ◌<◌, ◌≡◌, refl, ◌∙◌, ap, inl, inr, Bool, true, false, Option,
  arith, ◌==◌, ==_iff, Bool-cases, if◌then◌else◌,
}
use srslog.Base.Int.{ℤ, pos, ◌/ℤ◌, srs_max, pos_part}
use srslog.Clock.{Timeval, Clock, update_system_time_ms, set_time}
use srslog.Config.{ConfigInfo, get_heartbeat_interval}
use srslog.Server.{Server}

-- `__max`: the passes between two looks at the configuration.
unfoldable pub max_ticks : ConfigInfo → ℤ
max_ticks config = srs_max (srs_max (pos 0) (pos 3)) (get_heartbeat_interval config /ℤ pos 100)

module _ (gettimeofday : ℕ → Option Timeval) where
  -- One pass of the loop over `i`; `reload` says that a reload signal came while it slept.
  unfoldable pub tick : ℕ → Bool → Server × Clock → Server × Clock
  tick i reload (s, c) =
      let s' = if reload then record s { signal_reload = true } else s in
      (
        (if s'.signal_reload then record s' { signal_reload = false } else s'),
        (if (i % 3) == 0 then update_system_time_ms gettimeofday c else c),
      )

  -- `n` passes from `i` on.
  unfoldable pub ticks : ℕ → ℕ → (ℕ → Bool) → Server × Clock → Server × Clock
  unfolding tick
  ticks zero i reloads sc = sc
  ticks (suc n) i reloads sc = ticks n (suc i) reloads (tick i (reloads i) sc)

  -- The first rounds of the endless `while (true)`; `reloads r i` is the signal in pass i of the
  -- round before the last r.
  unfoldable pub rounds : ℕ → ConfigInfo → (ℕ → ℕ → Bool) → Server × Clock → Server × Clock
  unfolding ticks
  rounds zero config reloads sc = sc
  rounds (suc n) config reloads sc =
      rounds n config reloads (ticks (pos_part (max_ticks config)) 0 (reloads n) sc)

not_zero : (i : ℕ) → ((i % 3) == 0) ≡ false → 0 < i % 3
not_zero i h = ground arith

ticks_due :
    (n i calls calls' last : ℕ)
    → i % 3 ≡ 0
    → calls' ≡ calls + 1
    → last + (suc i + 2) / 3 ≡ calls' + (suc i + n + 2) / 3
    → last + (i + 2) / 3 ≡ calls + (i + suc n + 2) / 3
ticks_due n i calls calls' last z s r = omega arith

ticks_idle :
    (n i calls calls' last : ℕ)
    → 0 < i % 3
    → calls' ≡ calls + 0
    → last + (suc i + 2) / 3 ≡ calls' + (suc i + n + 2) / 3
    → last + (i + 2) / 3 ≡ calls + (i + suc n + 2) / 3
ticks_idle n i calls calls' last z s r = omega arith

module _ (gettimeofday : ℕ → Option Timeval) where
  update-calls : (c : Clock) → (update_system_time_ms gettimeofday c).calls ≡ c.calls + 1
  unfolding update_system_time_ms set_time
  update-calls c = ground arith

  pub tick_lem :
      (i : ℕ) (reload : Bool) (sc : Server × Clock)
      → let (s', c') = tick gettimeofday i reload sc in
        (s' ≡ record (sc.0) { signal_reload = false })
        × (c'.calls ≡ sc.1.calls + (if (i % 3) == 0 then 1 else 0))
  unfolding tick
  tick_lem i reload (s, c) = (ground arith, ground (arith, update-calls c))

  -- The passes i, …, i + n - 1 read the clock at the multiples of three among them.
  ticks-calls :
      (n i : ℕ) (reloads : ℕ → Bool) (sc : Server × Clock)
      → (ticks gettimeofday n i reloads sc).1.calls + (i + 2) / 3 ≡ sc.1.calls + (i + n + 2) / 3
  unfolding ticks
  ticks-calls zero i reloads sc = ground arith
  ticks-calls (suc n) i reloads sc =
      let step = (tick_lem i (reloads i) sc).1 in
      let rest = ticks-calls n (suc i) reloads (tick gettimeofday i (reloads i) sc) in
      elim (Bool-cases ((i % 3) == 0)) [
        | inl due ↦
            ticks_due n i _ _ _ ((==_iff (i % 3) 0).0 due)
              (step ∙ ap (λ b. sc.1.calls + (if b then 1 else 0)) due) rest
        | inr idle ↦
            ticks_idle n i _ _ _ (not_zero i idle)
              (step ∙ ap (λ b. sc.1.calls + (if b then 1 else 0)) idle) rest
      ]

  -- A reload signal is taken at the latest in the pass behind it; the passes change no other field.
  ticks-server :
      (n i : ℕ) (reloads : ℕ → Bool) (sc : Server × Clock)
      → (ticks gettimeofday (suc n) i reloads sc).0 ≡ record (sc.0) { signal_reload = false }
  unfolding ticks
  ticks-server zero i reloads sc = (tick_lem i (reloads i) sc).0
  ticks-server (suc n) i reloads sc =
      ticks-server n (suc i) reloads (tick gettimeofday i (reloads i) sc)
      ∙ ap (λ (s : Server). record s { signal_reload = false }) (tick_lem i (reloads i) sc).0

  pub max_ticks_lem : (config : ConfigInfo) → pos_part (max_ticks config) ≡ 99
  unfolding max_ticks srs_max ◌/ℤ◌
  max_ticks_lem config = refl

  rounds_step :
      (n : ℕ) (config : ConfigInfo) (reloads : ℕ → ℕ → Bool) (sc : Server × Clock)
      → rounds gettimeofday (suc n) config reloads sc
        ≡ rounds gettimeofday n config reloads (ticks gettimeofday 99 0 (reloads n) sc)
  unfolding rounds
  rounds_step n config reloads sc =
      ap (λ m. rounds gettimeofday n config reloads (ticks gettimeofday m 0 (reloads n) sc))
        (max_ticks_lem config)

  rounds_zero :
      (config : ConfigInfo) (reloads : ℕ → ℕ → Bool) (sc : Server × Clock)
      → rounds gettimeofday 0 config reloads sc ≡ sc
  unfolding rounds
  rounds_zero config reloads sc = refl

  -- A round has 99 passes. After one or more rounds of the main cycle, whatever reload signals came,
  -- the clock has been read exactly 33 times a round, no reload signal is pending, and no other
  -- field of the server has changed.
  pub rounds-calls :
      (n : ℕ) (config : ConfigInfo) (reloads : ℕ → ℕ → Bool) (sc : Server × Clock)
      → let (s', c') = rounds gettimeofday (suc n) config reloads sc in
        (c'.calls ≡ sc.1.calls + 33 * suc n) × (s' ≡ record (sc.0) { signal_reload = false })
  rounds-calls zero config reloads sc =
      rw
        (
          rounds_step zero config reloads sc,
          rounds_zero config reloads (ticks gettimeofday 99 0 (reloads 0) sc),
        )
        (omega (arith, ticks-calls 99 0 (reloads 0) sc), ticks-server 98 0 (reloads 0) sc)
  rounds-calls (suc n) config reloads sc =
      let sc' = ticks gettimeofday 99 0 (reloads (suc n)) sc in
      let (calls, server) = rounds-calls n config reloads sc' in
      let one = ticks-server 98 0 (reloads (suc n)) sc in
      rw (rounds_step (suc n) config reloads sc) (
        omega (arith, calls, ticks-calls 99 0 (reloads (suc n)) sc),
        server ∙ ap (λ (s : Server). record s { signal_reload = false }) one,
      )
