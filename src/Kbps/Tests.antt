-- ===== src/Kbps/Tests.antt =====
-- Runs of the statistics at fixed inputs, and the theorems at inputs that meet their hypotheses.
use mathlib.Core.Option.{some-injective}
use srslog.Base.{ℕ, ◌*◌, ◌+◌, ◌≡◌, refl, Option, none, some, List, [], ◌∷◌, arith}
use srslog.Base.Int.{to_int, ℤ, ◌-ℤ◌, ◌/ℤ◌, pos, ◌+ℤ◌, ◌*ℤ◌}
use srslog.Clock.{Timeval, Clock, initial, now_us}
use srslog.Kbps.{
  Slice, refresh, get_total_bytes, resample, rate, Statistic, new_slice, new_kbps, sample_at,
  get_recv_bytes, get_send_bytes, get_send_kbps, get_recv_kbps,
}
use srslog.Kbps.Accounting.{
  Event, Meters, session, sampled, added, step, run, server_follows_connection,
}
use srslog.Kbps.Start.{AfterEpoch}
use srslog.Kbps.Rates.{Rated, samples_run, marks, total_at, samples_run-Rated}
use srslog.Kbps.Mean.{
  Use, sets, samples, reports_recv, ticks, uses, began, mean_kbps, mean_since_began,
}

abbrev ticking : ℕ → Option Timeval
ticking n = some (record { tv_sec = pos (100 + n); tv_usec = pos 0 })

abbrev counters : ℕ → Statistic
counters p = record { recv_bytes = pos (1000 * p); send_bytes = pos (500 * p) }

abbrev history : List Event
history = session (some 1) (some 1) counters ∷ sampled (λ p. counters (p + 4)) ∷ []

server_follows_connection_example :
    let start : Meters = record { conn = new_kbps; server = new_kbps; clock = initial } in
    let m = step ticking (run ticking start history) added in
    (get_recv_bytes m.server ≡ get_recv_bytes new_kbps +ℤ get_recv_bytes m.conn)
    × (get_send_bytes m.server ≡ get_send_bytes new_kbps +ℤ get_send_bytes m.conn)
server_follows_connection_example =
    server_follows_connection ticking new_kbps initial history refl refl

abbrev day : List Use
day = sets (some 1) none counters ∷ samples (λ p. counters (p + 4)) ∷ ticks ∷ reports_recv ∷ []

abbrev read_clock : Clock
read_clock = record { cache_us = pos 5000000; startup_us = pos 5000000; calls = 0 }

ticking-AfterEpoch : AfterEpoch ticking
unfolding now_us ◌*ℤ◌ ◌+ℤ◌
ticking-AfterEpoch n tv e = rw (← (some-injective _ tv e)) (ground arith)

mean_since_began_example :
    let (k, c) = uses ticking day (new_kbps, read_clock) in
    (get_send_kbps ticking k c
      ≡ (mean_kbps ticking (get_send_bytes k) (began ticking day read_clock) c, c))
    × (get_recv_kbps ticking k c
        ≡ (mean_kbps ticking (get_recv_bytes k) (began ticking day read_clock) c, c))
mean_since_began_example = mean_since_began ticking day read_clock ticking-AfterEpoch (omega arith)

abbrev with_io : Slice
with_io = record new_slice { io = some 1 }

-- At 20 seconds no window is full, at 40 the one of 30 seconds is.
abbrev samplings : List (ℤ × ℤ)
samplings = (pos 100000, pos 0) ∷ (pos 120000, pos 5000) ∷ (pos 140000, pos 50000) ∷ []

samples_run-Rated_example :
    Rated (samples_run samplings with_io) (λ w. marks w (total_at with_io) samplings [])
samples_run-Rated_example =
    samples_run-Rated samplings with_io (omega arith, (omega arith, (omega arith, tt)))
      (record { rate_30s = refl; rate_1m = refl; rate_5m = refl; rate_60m = refl })

-- 50000 bytes over 40 seconds are 10 kbps.
ten_kbps :
    ((samples_run samplings with_io).sample_30s.kbps ≡ pos 10)
    × ((samples_run samplings with_io).sample_1m.kbps ≡ pos 0)
unfolding sample_at refresh get_total_bytes resample rate ◌+ℤ◌ ◌-ℤ◌ ◌*ℤ◌ ◌/ℤ◌ to_int
ten_kbps = (refl, refl)
