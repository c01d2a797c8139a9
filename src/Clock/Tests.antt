-- ===== src/Clock/Tests.antt =====
-- Runs of the clock at fixed readings, and the theorems at inputs that meet their hypotheses.
use srslog.Base.{if◌then◌else◌, ◌==◌, ℕ, ◌+◌, ◌≡◌, refl, Option, some, arith}
use srslog.Base.Int.{pos, negsuc, ◌-ℤ◌, ◌+ℤ◌, ◌*ℤ◌, ◌/ℤ◌, ◌<ℤ◌}
use srslog.Clock.{
  Timeval, Clock, initial, now_us, update_system_time_ms, get_system_time_ms, updates, set_time,
}
use srslog.Clock.Jumps.{earned, updates-earned}
use srslog.Clock.Uptime.{uptime_us}

abbrev ticking : ℕ → Option Timeval
ticking n = some (record { tv_sec = pos (100 + n); tv_usec = pos 7 })

abbrev started : Clock
started = record { cache_us = pos 100000007; startup_us = pos 100000007; calls = 1 }

first_reading : get_system_time_ms ticking initial ≡ (pos 100000, started)
unfolding get_system_time_ms update_system_time_ms set_time now_us ◌*ℤ◌ ◌+ℤ◌ ◌/ℤ◌
first_reading = refl

-- Jumps 1100 seconds ahead at the second reading, and 500 seconds back at the third.
abbrev jumping : ℕ → Option Timeval
jumping n = some (record { tv_sec = if n == 2 then pos 1200 else pos 700; tv_usec = pos 0 })

now_us-jumping :
    (n : ℕ)
    → pos 0 <ℤ now_us (record { tv_sec = if n == 2 then pos 1200 else pos 700; tv_usec = pos 0 })
unfolding now_us ◌*ℤ◌ ◌+ℤ◌
now_us-jumping n = ground arith

jumping_after_epoch : (n : ℕ) (tv : Timeval) → jumping n ≡ some tv → pos 0 <ℤ now_us tv
jumping_after_epoch n tv e = grind (arith, now_us-jumping n)

abbrev running : Clock
running = record { cache_us = pos 100000000; startup_us = pos 40000000; calls = 2 }

updates-earned_example :
    uptime_us (updates jumping 3 running) ≡ uptime_us running +ℤ earned jumping 3 2 (pos 100000000)
updates-earned_example = updates-earned jumping jumping_after_epoch 3 running (omega arith)

-- After 60 seconds of uptime the jump back leaves less than none.
negative_uptime : uptime_us (updates jumping 2 running) ≡ negsuc 439999999
unfolding updates update_system_time_ms set_time now_us ◌*ℤ◌ ◌+ℤ◌ ◌-ℤ◌
negative_uptime = refl
