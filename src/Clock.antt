-- ===== src/Clock.antt =====
-- The cached system clock of src/base/app_utility.cpp (`srs_update_system_time_ms` and
-- `srs_get_system_time_ms`) with its two static variables.
pub mod Uptime
pub mod Jumps
mod Tests
use srslog.Base.{ℕ, zero, suc, Option, none, some, ◌||◌, if◌then◌else◌}
use srslog.Base.Int.{ℤ, pos, ◌+ℤ◌, ◌-ℤ◌, ◌*ℤ◌, ◌/ℤ◌, ltb_ℤ, leb_ℤ, srs_max}

pub record Timeval : Type 0 where
  pub tv_sec : ℤ
  pub tv_usec : ℤ

-- `calls` counts the calls of `gettimeofday` so far.
pub record Clock : Type 0 where
  pub cache_us : ℤ
  pub startup_us : ℤ
  pub calls : ℕ

abbrev pub initial : Clock
initial = record { cache_us = pos 0; startup_us = pos 0; calls = 0 }

abbrev pub sys_time_resolution_us : ℕ
sys_time_resolution_us = 300000

-- The largest step between two updates that is not taken for a jump: 300 seconds.
abbrev pub jump_us : ℤ
jump_us = pos 300000000

unfoldable pub now_us : Timeval → ℤ
now_us tv = tv.tv_sec *ℤ pos 1000 *ℤ pos 1000 +ℤ tv.tv_usec

-- The body below the test of `gettimeofday`, at the time read.
unfoldable pub set_time : ℤ → Clock → Clock
unfolding srs_max
set_time now c =
    if leb_ℤ c.cache_us (pos 0)
    then record c { cache_us = now; startup_us = now }
    else (let diff = srs_max (pos 0) (now -ℤ c.cache_us) in
        if ltb_ℤ diff (pos 0) || ltb_ℤ jump_us diff
        then record c { cache_us = now; startup_us = c.startup_us +ℤ diff }
        else record c { cache_us = now })

-- `gettimeofday n` is what the n-th call gives, `none` where it fails.
module _ (gettimeofday : ℕ → Option Timeval) where
  unfoldable pub update_system_time_ms : Clock → Clock
  update_system_time_ms c = elim (gettimeofday c.calls) [
    | none ↦ record c { calls = suc c.calls }
    | some tv ↦ set_time (now_us tv) (record c { calls = suc c.calls })
  ]

  unfoldable pub get_system_time_ms : Clock → ℤ × Clock
  get_system_time_ms c =
      let c' = if leb_ℤ c.cache_us (pos 0) then update_system_time_ms c else c in
      (c'.cache_us /ℤ pos 1000, c')

  -- The main cycle's updates, one after another.
  unfoldable pub updates : ℕ → Clock → Clock
  updates zero c = c
  updates (suc n) c = updates n (update_system_time_ms c)
