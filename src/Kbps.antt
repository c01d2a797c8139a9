-- ===== src/Kbps.antt =====
-- src/base/app_kbps.h and app_kbps.cpp: samples, slices and `SrsKbps`, over the cached clock.
-- A pointer to an `ISrsProtocolStatistic` is a number; what its counters show when an operation
-- reads them is the argument `stats`. 64-bit counters are exact integers (their overflow is
-- undefined in C++); the conversion to `int` is written out.
pub mod Window
pub mod Accounting
pub mod Start
pub mod Mean
pub mod Rates
mod Tests
use srslog.Base.{ℕ, Option, none, some, if◌then◌else◌}
use srslog.Base.Int.{ℤ, pos, ◌+ℤ◌, ◌-ℤ◌, ◌*ℤ◌, ◌/ℤ◌, ltb_ℤ, leb_ℤ, eqb_ℤ, to_int}
use srslog.Clock.{Timeval, Clock, get_system_time_ms}

pub record Sample : Type 0 where
  pub bytes : ℤ
  pub time : ℤ
  pub kbps : ℤ

pub record Slice : Type 0 where
  pub io : Option ℕ
  pub bytes : ℤ
  pub starttime : ℤ
  pub io_bytes_base : ℤ
  pub last_bytes : ℤ
  pub sample_30s : Sample
  pub sample_1m : Sample
  pub sample_5m : Sample
  pub sample_60m : Sample
  pub delta_bytes : ℤ

pub record Kbps : Type 0 where
  pub is : Slice
  pub os : Slice

-- `ISrsProtocolStatistic`: the counters of a channel.
pub record Statistic : Type 0 where
  pub recv_bytes : ℤ
  pub send_bytes : ℤ

-- The constructors.
abbrev pub new_sample : Sample
new_sample = record { bytes = pos 0; time = pos 0; kbps = pos 0 }

abbrev pub new_slice : Slice
new_slice = record {
  io = none;
  bytes = pos 0;
  starttime = pos 0;
  io_bytes_base = pos 0;
  last_bytes = pos 0;
  sample_30s = new_sample;
  sample_1m = new_sample;
  sample_5m = new_sample;
  sample_60m = new_sample;
  delta_bytes = pos 0;
}

abbrev pub new_kbps : Kbps
new_kbps = record { is = new_slice; os = new_slice }

unfoldable pub get_total_bytes : Slice → ℤ
get_total_bytes s = s.bytes +ℤ s.last_bytes -ℤ s.io_bytes_base

-- The first use of a sample: the block `if (sample.time <= 0)`.
unfoldable pub start_sample : ℤ → ℤ → Sample → Sample
start_sample now total s =
    if leb_ℤ s.time (pos 0) then record { bytes = total; time = now; kbps = pos 0 } else s

-- The rate over the time since the sample was taken, in bits per millisecond.
unfoldable pub rate : ℤ → ℤ → Sample → ℤ
rate now total s = to_int ((total -ℤ s.bytes) *ℤ pos 8 /ℤ (now -ℤ s.time))

-- The block `if (now - sample.time > window)`.
unfoldable pub roll_sample : ℤ → ℤ → ℤ → Sample → Sample
roll_sample window now total s =
    if ltb_ℤ window (now -ℤ s.time)
    then record { bytes = total; time = now; kbps = rate now total s }
    else s

unfoldable pub resample : ℤ → ℤ → ℤ → Sample → Sample
unfolding start_sample roll_sample
resample window now total s = roll_sample window now total (start_sample now total s)

abbrev pub window_30s : ℤ
window_30s = pos 30000

abbrev pub window_1m : ℤ
window_1m = pos 60000

abbrev pub window_5m : ℤ
window_5m = pos 300000

abbrev pub window_60m : ℤ
window_60m = pos 3600000

-- The body of `SrsKbpsSlice::sample` at the time that it reads.
unfoldable pub sample_at : ℤ → Slice → Slice
sample_at now s =
    let total = get_total_bytes s in
    record s {
      sample_30s = resample window_30s now total s.sample_30s;
      sample_1m = resample window_1m now total s.sample_1m;
      sample_5m = resample window_5m now total s.sample_5m;
      sample_60m = resample window_60m now total s.sample_60m;
    }

-- "save the old bytes", where an io was set.
unfoldable pub save_session : Slice → Slice
save_session s = elim s.io [
  | none ↦ s
  | some _ ↦ record s { bytes = s.bytes +ℤ (s.last_bytes -ℤ s.io_bytes_base) }
]

-- "use new io", whose counter stands at `count`.
unfoldable pub use_io : Option ℕ → (ℕ → ℤ) → Slice → Slice
use_io none count s = record s { io = none; last_bytes = pos 0; io_bytes_base = pos 0 }
use_io (some p) count s = record s { io = some p; last_bytes = count p; io_bytes_base = count p }

-- "update the total bytes" of `SrsKbps::sample`.
unfoldable pub refresh : (ℕ → ℤ) → Slice → Slice
refresh count s = elim s.io [ none ↦ s | some p ↦ record s { last_bytes = count p } ]

module _ (gettimeofday : ℕ → Option Timeval) where
  unfoldable pub sample_slice : Slice → Clock → Slice × Clock
  sample_slice s c = let (now, c') = get_system_time_ms gettimeofday c in (sample_at now s, c')

  -- "now, set start time".
  unfoldable pub set_starttime : Slice → Clock → Slice × Clock
  set_starttime s c =
      let (now, c') = get_system_time_ms gettimeofday c in
      if eqb_ℤ s.starttime (pos 0) then (record s { starttime = now }, c') else (s, c)

  -- One half of `SrsKbps::set_io`.
  unfoldable pub set_slice_io : Option ℕ → (ℕ → ℤ) → Slice → Clock → Slice × Clock
  set_slice_io io count s c =
      let (s', c') = set_starttime s c in sample_slice (use_io io count (save_session s')) c'

  unfoldable pub set_io : Option ℕ → Option ℕ → (ℕ → Statistic) → Kbps → Clock → Kbps × Clock
  set_io in_io out_io stats k c =
      let (is', c') = set_slice_io in_io (λ p. (stats p).recv_bytes) k.is c in
      let (os', c'') = set_slice_io out_io (λ p. (stats p).send_bytes) k.os c' in
      (record { is = is'; os = os' }, c'')

  unfoldable pub sample : (ℕ → Statistic) → Kbps → Clock → Kbps × Clock
  sample stats k c =
      let os' = refresh (λ p. (stats p).send_bytes) k.os in
      let (is'', c') = sample_slice (refresh (λ p. (stats p).recv_bytes) k.is) c in
      let (os'', c'') = sample_slice os' c' in (record { is = is''; os = os'' }, c'')

  -- `int` results: the mean since the start time of the input slice, of the output slice.
  unfoldable pub get_send_kbps : Kbps → Clock → ℤ × Clock
  get_send_kbps k c =
      let (now, c') = get_system_time_ms gettimeofday c in
      let duration = now -ℤ k.is.starttime in
      if leb_ℤ duration (pos 0)
      then (pos 0, c')
      else (to_int (get_total_bytes k.os *ℤ pos 8 /ℤ duration), c')

  unfoldable pub get_recv_kbps : Kbps → Clock → ℤ × Clock
  get_recv_kbps k c =
      let (now, c') = get_system_time_ms gettimeofday c in
      let duration = now -ℤ k.os.starttime in
      if leb_ℤ duration (pos 0)
      then (pos 0, c')
      else (to_int (get_total_bytes k.is *ℤ pos 8 /ℤ duration), c')

abbrev pub get_send_kbps_30s : Kbps → ℤ
get_send_kbps_30s k = k.os.sample_30s.kbps

abbrev pub get_recv_kbps_30s : Kbps → ℤ
get_recv_kbps_30s k = k.is.sample_30s.kbps

abbrev pub get_send_kbps_5m : Kbps → ℤ
get_send_kbps_5m k = k.os.sample_5m.kbps

abbrev pub get_recv_kbps_5m : Kbps → ℤ
get_recv_kbps_5m k = k.is.sample_5m.kbps

abbrev pub get_send_bytes : Kbps → ℤ
get_send_bytes k = get_total_bytes k.os

abbrev pub get_recv_bytes : Kbps → ℤ
get_recv_bytes k = get_total_bytes k.is

-- `IKbpsDelta`: what `add_delta` may be given.
pub record KbpsDelta (A : Type 0) : Type 0 where
  pub send_bytes_delta : A → ℤ × A
  pub recv_bytes_delta : A → ℤ × A

abbrev take_delta : Slice → ℤ × Slice
take_delta s = (get_total_bytes s -ℤ s.delta_bytes, record s { delta_bytes = get_total_bytes s })

unfoldable pub get_send_bytes_delta : Kbps → ℤ × Kbps
get_send_bytes_delta k = let (d, s) = take_delta k.os in (d, record k { os = s })

unfoldable pub get_recv_bytes_delta : Kbps → ℤ × Kbps
get_recv_bytes_delta k = let (d, s) = take_delta k.is in (d, record k { is = s })

abbrev pub kbps_delta : KbpsDelta Kbps
kbps_delta = record {
  send_bytes_delta = get_send_bytes_delta;
  recv_bytes_delta = get_recv_bytes_delta;
}

-- The source of the delta comes back with the server's statistic.
unfoldable pub add_delta : {A : Type 0} → KbpsDelta A → A → Kbps → A × Kbps
add_delta d source k =
    let (recv, source') = d.recv_bytes_delta source in
    let (send, source'') = d.send_bytes_delta source' in
    (
      source'',
      record k {
        is = record (k.is) { last_bytes = k.is.last_bytes +ℤ recv };
        os = record (k.os) { last_bytes = k.os.last_bytes +ℤ send };
      },
    )
