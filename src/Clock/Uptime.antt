-- ===== src/Clock/Uptime.antt =====
-- What the cached clock promises: a bounded advance of the uptime, and stable readings.
use srslog.Base.{ℕ, zero, suc, ◌*◌, ◌≡◌, inl, inr, Option, some, arith, Option-cases}
use srslog.Base.Int.{ℤ, pos, ◌+ℤ◌, ◌-ℤ◌, ◌≤ℤ◌, ◌<ℤ◌, int_laws}
use srslog.Clock.{
  Timeval, Clock, jump_us, set_time, now_us, update_system_time_ms, get_system_time_ms, updates,
}

abbrev pub uptime_us : Clock → ℤ
uptime_us c = c.cache_us -ℤ c.startup_us

-- One reading moves the uptime by at most 300 seconds, and the startup time never goes back.
set_time_step :
    (now : ℤ) (c : Clock)
    → pos 0 <ℤ c.cache_us
    → (uptime_us (set_time now c) ≤ℤ uptime_us c +ℤ jump_us)
      × (c.startup_us ≤ℤ (set_time now c).startup_us)
unfolding set_time
set_time_step now c h = grind int_laws

set_time-cache : (now : ℤ) (c : Clock) → (set_time now c).cache_us ≡ now
unfolding set_time
set_time-cache now c = ground arith

-- `c'` comes `n` updates after `c`.
pub record Advances (n : ℕ) (c c' : Clock) : Type 0 where
  pub running : pos 0 <ℤ c'.cache_us
  pub uptime : uptime_us c' ≤ℤ uptime_us c +ℤ pos (n * 300000000)
  pub startup : c.startup_us ≤ℤ c'.startup_us

module _ (gettimeofday : ℕ → Option Timeval) where
  -- Once `get_system_time_ms` has left a time in the cache, the next call gives the same
  -- milliseconds and asks the system for nothing.
  pub get_system_time_ms_stable :
      (c : Clock)
      → pos 0 <ℤ (get_system_time_ms gettimeofday c).1.cache_us
      → get_system_time_ms gettimeofday (get_system_time_ms gettimeofday c).1
        ≡ get_system_time_ms gettimeofday c
  unfolding get_system_time_ms
  get_system_time_ms_stable c h = ground arith

  module _
      (after_epoch : (n : ℕ) (tv : Timeval) → gettimeofday n ≡ some tv → pos 0 <ℤ now_us tv) where
    update-Advances :
        (c : Clock) → pos 0 <ℤ c.cache_us → Advances 1 c (update_system_time_ms gettimeofday c)
    unfolding update_system_time_ms
    update-Advances c h = elim (Option-cases (gettimeofday c.calls)) [
      | inl e ↦ rw (e, update_system_time_ms) (omega int_laws)
      | inr (tv, e) ↦
          let c' = record c { calls = suc c.calls } in
          let (p, q) = set_time_step (now_us tv) c' h in
          rw (e, update_system_time_ms)
            (record {
              running = rw (set_time-cache (now_us tv) c') (after_epoch c.calls tv e);
              uptime = omega (int_laws, p);
              startup = q;
            })
    ]

    -- Where the system's clock reads later than the epoch, n updates of a set clock advance the
    -- uptime (cached time less startup time) by at most n times 300 seconds, whatever jumps the
    -- system's clock makes; the startup time never goes back, and the clock stays set.
    pub updates-Advances :
        (n : ℕ) (c : Clock) → pos 0 <ℤ c.cache_us → Advances n c (updates gettimeofday n c)
    unfolding updates
    updates-Advances zero c h = omega int_laws
    updates-Advances (suc n) c h =
        let c' = update_system_time_ms gettimeofday c in
        let one = update-Advances c h in
        let rest = updates-Advances n c' one.running in
        record {
          running = rest.running;
          uptime = omega (int_laws, one.uptime, rest.uptime);
          startup = omega (int_laws, one.startup, rest.startup);
        }
