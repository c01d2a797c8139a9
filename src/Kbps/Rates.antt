-- ===== src/Kbps/Rates.antt =====
-- The four rates of a slice after any samplings, as the rates between the times at which a window
-- was full.
use mathlib.Core.Path.{subst}
use srslog.Base.{inl, inr, Option-cases, ap, ◌∙◌, ℕ, ◌≡◌, refl, List, [], ◌∷◌, arith, if◌then◌else◌}
use srslog.Base.Int.{ℤ, pos, ◌-ℤ◌, ◌*ℤ◌, ◌/ℤ◌, ◌<ℤ◌, ltb_ℤ, to_int, int_laws}
use srslog.Kbps.{
  Sample, Slice, new_sample, start_sample, roll_sample, rate, resample, sample_at, get_total_bytes,
  window_30s, window_1m, window_5m, window_60m, refresh,
}

-- A time, and the bytes that were counted until then.
abbrev pub Mark : Type 0
Mark = ℤ × ℤ

-- A mark is set if it is the first, or comes more than the window after the one before.
abbrev pub mark : ℤ → Mark → List Mark → List Mark
mark window m [] = m ∷ []
mark window m (m' ∷ ms) = if ltb_ℤ window (m.0 -ℤ m'.0) then m ∷ m' ∷ ms else m' ∷ ms

-- The last of some marks with the rate since the one before.
abbrev pub shown : List Mark → Sample
shown [] = new_sample
shown (m ∷ []) = record { bytes = m.1; time = m.0; kbps = pos 0 }
shown (m ∷ m' ∷ ms) = record {
  bytes = m.1;
  time = m.0;
  kbps = to_int ((m.1 -ℤ m'.1) *ℤ pos 8 /ℤ (m.0 -ℤ m'.0));
}

abbrev Positive : List Mark → Type 0
Positive [] = Unit
Positive (m ∷ ms) = pos 0 <ℤ m.0

mark-Positive :
    (window : ℤ) (m : Mark) (ms : List Mark)
    → pos 0 <ℤ m.0
    → Positive ms
    → Positive (mark window m ms)
mark-Positive window m [] h p = h
mark-Positive window m (m' ∷ ms) h p = ground arith

self : (t : ℤ) → t -ℤ t ≡ pos 0
self t = grind int_laws

resample-mark :
    (window : ℕ) (m : Mark) (ms : List Mark)
    → pos 0 <ℤ m.0
    → Positive ms
    → resample (pos window) m.0 m.1 (shown ms) ≡ shown (mark (pos window) m ms)
unfolding resample start_sample roll_sample rate
resample-mark window m [] h p = ground (arith, self m.0)
resample-mark window m (m' ∷ []) h p = ground arith
resample-mark window m (m' ∷ m'' ∷ ms) h p = ground arith

-- The samplings of a slice: at each the time, and what the counter of its io shows.
abbrev pub samples_run : List (ℤ × ℤ) → Slice → Slice
samples_run [] s = s
samples_run ((now, count) ∷ rs) s = samples_run rs (sample_at now (refresh (λ p. count) s))

-- The total of a slice whose io shows a count.
abbrev pub total_at : Slice → ℤ → ℤ
total_at s count = get_total_bytes (refresh (λ p. count) s)

-- The marks of a window over some samplings, upon earlier ones.
abbrev pub marks : ℤ → (ℤ → ℤ) → List (ℤ × ℤ) → List Mark → List Mark
marks window total [] ms = ms
marks window total ((now, count) ∷ rs) ms =
    marks window total rs (mark window (now, total count) ms)

-- Each of the four samples shows the marks of its window.
pub record Rated (s : Slice) (ms : ℤ → List Mark) : Type 0 where
  pub rate_30s : s.sample_30s ≡ shown (ms window_30s)
  pub rate_1m : s.sample_1m ≡ shown (ms window_1m)
  pub rate_5m : s.sample_5m ≡ shown (ms window_5m)
  pub rate_60m : s.sample_60m ≡ shown (ms window_60m)

abbrev pub AfterEpoch : List (ℤ × ℤ) → Type 0
AfterEpoch [] = Unit
AfterEpoch ((now, count) ∷ rs) = (pos 0 <ℤ now) × AfterEpoch rs

total_at-sampled :
    (now count count' : ℤ) (s : Slice)
    → total_at (sample_at now (refresh (λ p. count) s)) count' ≡ total_at s count'
unfolding sample_at refresh get_total_bytes
total_at-sampled now count count' s = ground arith

refresh-Rated :
    (count : ℤ) (s : Slice) (ms : ℤ → List Mark) → Rated s ms → Rated (refresh (λ p. count) s) ms
unfolding refresh
refresh-Rated count s ms r = elim (Option-cases s.io) [
  | inl e ↦ rw (e, refresh) r
  | inr (q, e) ↦
      rw (e, refresh)
        (record {
          rate_30s = r.rate_30s;
          rate_1m = r.rate_1m;
          rate_5m = r.rate_5m;
          rate_60m = r.rate_60m;
        })
]

sample_at-Rated :
    (now : ℤ) (s : Slice) (ms : ℤ → List Mark)
    → pos 0 <ℤ now
    → ((w : ℤ) → Positive (ms w))
    → Rated s ms
    → Rated (sample_at now s) (λ w. mark w (now, get_total_bytes s) (ms w))
unfolding sample_at
sample_at-Rated now s ms h p r =
    let m : Mark = (now, get_total_bytes s) in
    record {
      rate_30s =
          ap (resample window_30s now (get_total_bytes s)) r.rate_30s
          ∙ resample-mark 30000 m (ms window_30s) h (p window_30s);
      rate_1m =
          ap (resample window_1m now (get_total_bytes s)) r.rate_1m
          ∙ resample-mark 60000 m (ms window_1m) h (p window_1m);
      rate_5m =
          ap (resample window_5m now (get_total_bytes s)) r.rate_5m
          ∙ resample-mark 300000 m (ms window_5m) h (p window_5m);
      rate_60m =
          ap (resample window_60m now (get_total_bytes s)) r.rate_60m
          ∙ resample-mark 3600000 m (ms window_60m) h (p window_60m);
    }

samples_run-marks :
    (rs : List (ℤ × ℤ)) (s : Slice) (total : ℤ → ℤ) (ms : ℤ → List Mark)
    → ((count : ℤ) → total_at s count ≡ total count)
    → AfterEpoch rs
    → ((w : ℤ) → Positive (ms w))
    → Rated s ms
    → Rated (samples_run rs s) (λ w. marks w total rs (ms w))
samples_run-marks [] s total ms t h p r = r
samples_run-marks ((now, count) ∷ rs) s total ms t h p r =
    let s' = sample_at now (refresh (λ p. count) s) in
    let t' : (c : ℤ) → total_at s' c ≡ total c = λ c. total_at-sampled now count c s ∙ t c in
    let one = sample_at-Rated now (refresh (λ p. count) s) ms h.0 p (refresh-Rated count s ms r) in
    let next : ℤ → List Mark = λ w. mark w (now, total count) (ms w) in
    samples_run-marks rs s' total next t' h.1
      (λ w. mark-Positive w (now, total count) (ms w) h.0 (p w))
      (subst (λ x. Rated s' (λ w. mark w (now, x) (ms w))) (t count) one)

-- Over any samplings later than the epoch of a slice whose samples are new, each of the four samples
-- holds the last time at which its window was full, the bytes of that time, and the rate since the
-- time before: of the samplings the first counts, and then each that comes more than the window
-- after the last one that counted. The rate is 0 until the window was full once.
pub samples_run-Rated :
    (rs : List (ℤ × ℤ)) (s : Slice)
    → AfterEpoch rs
    → Rated s (λ w. [])
    → Rated (samples_run rs s) (λ w. marks w (total_at s) rs [])
samples_run-Rated rs s h r =
    samples_run-marks rs s (total_at s) (λ w. []) (λ count. refl) h (λ w. tt) r
