-- ===== src/Kbps/Start.antt =====
-- The start times of the two slices: what the operations on a statistic do to them where the clock
-- has been read.
use srslog.Base.{
  ℕ, ◌≡◌, refl, ◌∙◌, ap, inl, inr, false, Option, none, some, Option-cases, arith, if◌then◌else◌,
}
use srslog.Base.Int.{ℤ, pos, negsuc, ◌/ℤ◌, ◌≤ℤ◌, eqb_ℤ}
use srslog.Clock.{Timeval, Clock, now_us, set_time, update_system_time_ms, get_system_time_ms}
use srslog.Kbps.{
  Slice, Kbps, Statistic, kbps_delta, get_recv_bytes_delta, get_send_bytes_delta, add_delta,
  save_session, use_io, refresh, sample_at, sample_slice, set_starttime, set_slice_io, set_io,
  sample,
}

-- A clock that has been read, at least a millisecond behind the epoch.
abbrev pub IsRead : Clock → Type 0
IsRead c = pos 1000 ≤ℤ c.cache_us

-- Both slices started at `start`.
pub record Starts (start : ℤ) (k : Kbps) : Type 0 where
  pub input : k.is.starttime ≡ start
  pub output : k.os.starttime ≡ start

-- The start time that `set_io` leaves.
abbrev pub start_or : ℤ → Clock → ℤ
start_or t c = if eqb_ℤ t (pos 0) then c.cache_us /ℤ pos 1000 else t

-- What a use that neither starts a session nor moves the clock keeps.
abbrev pub Keeps : ℤ → Clock → Kbps × Clock → Type 0
Keeps start c s = Starts start (s.0) × (s.1 ≡ c)

module _ (gettimeofday : ℕ → Option Timeval) where
  -- The system's clock stands behind the epoch's first millisecond.
  abbrev pub AfterEpoch : Type 0
  AfterEpoch = (n : ℕ) (tv : Timeval) → gettimeofday n ≡ some tv → pos 1000 ≤ℤ now_us tv

  pub get_system_time_ms-IsRead :
      (c : Clock) → IsRead c → get_system_time_ms gettimeofday c ≡ (c.cache_us /ℤ pos 1000, c)
  unfolding get_system_time_ms
  get_system_time_ms-IsRead c h = ground arith

  pub update-IsRead :
      (c : Clock) → AfterEpoch → IsRead c → IsRead (update_system_time_ms gettimeofday c)
  unfolding update_system_time_ms set_time
  update-IsRead c after h = elim (Option-cases (gettimeofday c.calls)) [
    | inl e ↦ rw (e, update_system_time_ms) h
    | inr (tv, e) ↦ (let t = after c.calls tv e in rw (e, update_system_time_ms) (ground arith))
  ]

  pub read_start : (t : ℤ) → pos 1000 ≤ℤ t → eqb_ℤ (t /ℤ pos 1000) (pos 0) ≡ false
  unfolding ◌/ℤ◌
  read_start (pos n) h = ground arith
  read_start (negsuc n) h = ground arith

  save_session-starttime : (s : Slice) → (save_session s).starttime ≡ s.starttime
  unfolding save_session
  save_session-starttime s = ground arith

  set_starttime_lem :
      (s : Slice) (c : Clock)
      → IsRead c
      → ((set_starttime gettimeofday s c).0.starttime ≡ start_or s.starttime c)
        × ((set_starttime gettimeofday s c).1 ≡ c)
  unfolding set_starttime
  set_starttime_lem s c h = ground (arith, get_system_time_ms-IsRead c h)

  sample_slice_lem :
      (s : Slice) (c : Clock)
      → IsRead c
      → ((sample_slice gettimeofday s c).0.starttime ≡ s.starttime)
        × ((sample_slice gettimeofday s c).1 ≡ c)
  unfolding sample_slice sample_at
  sample_slice_lem s c h = ground (arith, get_system_time_ms-IsRead c h)

  use_io-starttime :
      (io : Option ℕ) (count : ℕ → ℤ) (s : Slice) → (use_io io count s).starttime ≡ s.starttime
  unfolding use_io
  use_io-starttime none count s = refl
  use_io-starttime (some p) count s = refl

  set_slice_io-starttime :
      (io : Option ℕ) (count : ℕ → ℤ) (s : Slice) (c : Clock)
      → IsRead c
      → ((set_slice_io gettimeofday io count s c).0.starttime ≡ start_or s.starttime c)
        × ((set_slice_io gettimeofday io count s c).1 ≡ c)
  unfolding set_slice_io
  set_slice_io-starttime io count s c h =
      let t = set_starttime_lem s c h in
      let s' = (set_starttime gettimeofday s c).0 in
      let r = sample_slice_lem (use_io io count (save_session s')) c h in
      rw (t.1)
        (r.0 ∙ use_io-starttime io count (save_session s') ∙ save_session-starttime s' ∙ t.0, r.1)

  refresh-starttime : (count : ℕ → ℤ) (s : Slice) → (refresh count s).starttime ≡ s.starttime
  unfolding refresh
  refresh-starttime count s = ground arith

  pub set_io-Keeps :
      (start : ℤ) (i o : Option ℕ) (stats : ℕ → Statistic) (k : Kbps) (c : Clock)
      → IsRead c
      → Starts start k
      → Keeps (start_or start c) c (set_io gettimeofday i o stats k c)
  unfolding set_io
  set_io-Keeps start i o stats k c h t =
      let r = set_slice_io-starttime i (λ p. (stats p).recv_bytes) k.is c h in
      let r' = set_slice_io-starttime o (λ p. (stats p).send_bytes) k.os c h in
      rw (r.1) (
        record {
          input = r.0 ∙ ap (λ x. start_or x c) t.input;
          output = r'.0 ∙ ap (λ x. start_or x c) t.output;
        },
        r'.1,
      )

  pub sample-Keeps :
      (start : ℤ) (stats : ℕ → Statistic) (k : Kbps) (c : Clock)
      → IsRead c
      → Starts start k
      → Keeps start c (sample gettimeofday stats k c)
  unfolding sample
  sample-Keeps start stats k c h t =
      let i = refresh (λ p. (stats p).recv_bytes) k.is in
      let o = refresh (λ p. (stats p).send_bytes) k.os in
      let r = sample_slice_lem i c h in
      let r' = sample_slice_lem o c h in
      rw (r.1) (
        record {
          input = r.0 ∙ refresh-starttime (λ p. (stats p).recv_bytes) k.is ∙ t.input;
          output = r'.0 ∙ refresh-starttime (λ p. (stats p).send_bytes) k.os ∙ t.output;
        },
        r'.1,
      )

  pub deltas-Keep :
      (start : ℤ) (source k : Kbps)
      → Starts start k
      → Starts start (add_delta kbps_delta source k).1
        × Starts start (get_recv_bytes_delta k).1
        × Starts start (get_send_bytes_delta k).1
  unfolding add_delta get_recv_bytes_delta get_send_bytes_delta
  deltas-Keep start source k t =
      let same : Starts start (add_delta kbps_delta source k).1 = record {
        input = t.input;
        output = t.output;
      } in
      (
        same,
        record { input = t.input; output = t.output },
        record { input = t.input; output = t.output },
      )
