-- ===== src/Kbps/Window.antt =====
-- The sampling windows: how old a sample can be after `sample`, and what its rate says.
use native.Mathlib.Nat.{div-lt_iff_lt-mul, div-mul-le_self, lt-mul-div-succ}
use srslog.Base.{refl, ◌*◌, ◌/◌, ◌<◌, ◌≤◌, ◌+◌, ◌^◌, ℕ, ◌≡◌, arith}
use srslog.Base.Int.{
  ℤ, pos_part, pos, negsuc, ◌-ℤ◌, ◌*ℤ◌, ◌/ℤ◌, ◌+ℤ◌, ◌≤ℤ◌, ◌<ℤ◌, int_laws, to_int, to_int_fits,
}
use srslog.Kbps.{
  Sample, Slice, resample, sample_at, rate, window_30s, window_1m, window_5m, window_60m,
  get_total_bytes,
}

-- A sample taken at a set time, not later than now and no longer ago than its window.
pub record IsFresh (window now : ℤ) (s : Sample) : Type 0 where
  pub started : pos 0 <ℤ s.time
  pub past : s.time ≤ℤ now
  pub recent : now ≤ℤ s.time +ℤ window

resample-IsFresh :
    (w : ℕ) (now total : ℤ) (s : Sample)
    → pos 0 <ℤ now
    → s.time ≤ℤ now
    → IsFresh (pos w) now (resample (pos w) now total s)
unfolding resample
resample-IsFresh w now total s h p = grind int_laws

pub record AllFresh (now : ℤ) (s : Slice) : Type 0 where
  pub in_30s : IsFresh window_30s now s.sample_30s
  pub in_1m : IsFresh window_1m now s.sample_1m
  pub in_5m : IsFresh window_5m now s.sample_5m
  pub in_60m : IsFresh window_60m now s.sample_60m

-- No sample of the slice was taken later than `now`.
pub record NotAhead (now : ℤ) (s : Slice) : Type 0 where
  pub of_30s : s.sample_30s.time ≤ℤ now
  pub of_1m : s.sample_1m.time ≤ℤ now
  pub of_5m : s.sample_5m.time ≤ℤ now
  pub of_60m : s.sample_60m.time ≤ℤ now

-- Sampling at a positive time that is not before any of the samples leaves each of the four
-- samples started, not in the future, and no older than its window.
pub sample_at-AllFresh :
    (now : ℤ) (s : Slice) → pos 0 <ℤ now → NotAhead now s → AllFresh now (sample_at now s)
unfolding sample_at
sample_at-AllFresh now s h a =
    let total = get_total_bytes s in
    record {
      in_30s = resample-IsFresh 30000 now total s.sample_30s h a.of_30s;
      in_1m = resample-IsFresh 60000 now total s.sample_1m h a.of_1m;
      in_5m = resample-IsFresh 300000 now total s.sample_5m h a.of_5m;
      in_60m = resample-IsFresh 3600000 now total s.sample_60m h a.of_60m;
    }

eq-pos_part : (z : ℤ) → pos 0 ≤ℤ z → z ≡ pos (pos_part z)
eq-pos_part (pos n) h = refl
eq-pos_part (negsuc n) h = absurd (omega arith)

quotient-to_int : (a d : ℕ) → 0 < d → a < 2 ^ 31 * d → to_int (pos a /ℤ pos d) ≡ pos (a / d)
unfolding ◌/ℤ◌
quotient-to_int a d h p =
    let fits : a / d < 2 ^ 31 = (div-lt_iff_lt-mul h).1 p in
    to_int_fits (pos (a / d)) (omega arith) (omega arith)

mul_eight : (b : ℕ) → pos b *ℤ pos 8 ≡ pos (b * 8)
unfolding ◌*ℤ◌
mul_eight b = ground arith

-- Where bytes were gained in a positive time and the rate is below 2 ^ 31, the kbps recorded is the
-- whole number of bits gained per millisecond, rounded down: the conversion to `int` loses nothing.
pub rate_floor :
    (now total : ℤ) (s : Sample)
    → s.time <ℤ now
    → s.bytes ≤ℤ total
    → pos_part (total -ℤ s.bytes) * 8 < 2 ^ 31 * pos_part (now -ℤ s.time)
    → let d = pos_part (now -ℤ s.time) in
      let b = pos_part (total -ℤ s.bytes) * 8 in
      (q : ℕ) × (rate now total s ≡ pos q) × (q * d ≤ b) × (b < (q + 1) * d)
unfolding rate
rate_floor now total s t g fits =
    let d = pos_part (now -ℤ s.time) in
    let b = pos_part (total -ℤ s.bytes) in
    let positive : 0 < d = omega int_laws in
    (
      b * 8 / d,
      rw
          (
            eq-pos_part (now -ℤ s.time) (omega int_laws),
            eq-pos_part (total -ℤ s.bytes) (omega int_laws),
            mul_eight b,
          )
          (quotient-to_int (b * 8) d positive fits),
      div-mul-le_self (b * 8) d,
      omega (arith, lt-mul-div-succ (b * 8) positive),
    )
