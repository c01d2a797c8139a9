-- ===== src/Kbps/Mean.antt =====
-- The two rates since the start. `get_send_kbps` takes its start time from the input slice and
-- `get_recv_kbps` from the output slice (app_kbps.cpp, lines 133 and 143).
use srslog.Base.{ℕ, ◌≡◌, refl, false, Option, List, [], ◌∷◌, arith, if◌then◌else◌}
use srslog.Base.Int.{ℤ, pos, ◌-ℤ◌, ◌*ℤ◌, ◌/ℤ◌, leb_ℤ, eqb_ℤ, to_int}
use srslog.Clock.{Timeval, Clock, update_system_time_ms}
use srslog.Kbps.{
  Kbps, Statistic, kbps_delta, new_kbps, get_recv_bytes, get_send_bytes, get_recv_bytes_delta,
  get_send_bytes_delta, add_delta, set_io, sample, get_send_kbps, get_recv_kbps,
}
use srslog.Kbps.Start.{
  IsRead, AfterEpoch, Starts, get_system_time_ms-IsRead, update-IsRead, read_start, Keeps,
  set_io-Keeps, sample-Keeps, deltas-Keep, start_or,
}

-- What is done with a statistic, and the main cycle's updates of the clock between.
pub data Use : Type 0 where
  sets : Option ℕ → Option ℕ → (ℕ → Statistic) → Use
  samples : (ℕ → Statistic) → Use
  adds : Kbps → Use
  reports_recv : Use
  reports_send : Use
  ticks : Use

module _ (gettimeofday : ℕ → Option Timeval) where
  abbrev pub used : Use → Kbps × Clock → Kbps × Clock
  used (sets i o stats) (k, c) = set_io gettimeofday i o stats k c
  used (samples stats) (k, c) = sample gettimeofday stats k c
  used (adds source) (k, c) = ((add_delta kbps_delta source k).1, c)
  used reports_recv (k, c) = ((get_recv_bytes_delta k).1, c)
  used reports_send (k, c) = ((get_send_bytes_delta k).1, c)
  used ticks (k, c) = (k, update_system_time_ms gettimeofday c)

  abbrev pub uses : List Use → Kbps × Clock → Kbps × Clock
  uses [] s = s
  uses (u ∷ us) s = uses us (used u s)

  -- The time of the first session, as the clock alone gives it; 0 where there is none.
  abbrev pub began : List Use → Clock → ℤ
  began [] c = pos 0
  began (sets i o stats ∷ us) c = c.cache_us /ℤ pos 1000
  began (ticks ∷ us) c = began us (update_system_time_ms gettimeofday c)
  began (samples stats ∷ us) c = began us c
  began (adds source ∷ us) c = began us c
  began (reports_recv ∷ us) c = began us c
  began (reports_send ∷ us) c = began us c

  -- The mean of `total` bytes since `start`, in kbps.
  abbrev pub mean_kbps : ℤ → ℤ → Clock → ℤ
  mean_kbps total start c =
      let duration = c.cache_us /ℤ pos 1000 -ℤ start in
      if leb_ℤ duration (pos 0) then pos 0 else to_int (total *ℤ pos 8 /ℤ duration)

  abbrev ticked : Use → Clock → Clock
  ticked ticks c = update_system_time_ms gettimeofday c
  ticked (sets i o stats) c = c
  ticked (samples stats) c = c
  ticked (adds source) c = c
  ticked reports_recv c = c
  ticked reports_send c = c

  abbrev start_after : Use → ℤ → Clock → ℤ
  start_after (sets i o stats) start c = start_or start c
  start_after (samples stats) start c = start
  start_after (adds source) start c = start
  start_after reports_recv start c = start
  start_after reports_send start c = start
  start_after ticks start c = start

  ticked-IsRead : (u : Use) (c : Clock) → AfterEpoch gettimeofday → IsRead c → IsRead (ticked u c)
  ticked-IsRead ticks c after h = update-IsRead gettimeofday c after h
  ticked-IsRead (sets i o stats) c after h = h
  ticked-IsRead (samples stats) c after h = h
  ticked-IsRead (adds source) c after h = h
  ticked-IsRead reports_recv c after h = h
  ticked-IsRead reports_send c after h = h

  used-Keeps :
      (u : Use) (start : ℤ) (k : Kbps) (c : Clock)
      → IsRead c
      → Starts start k
      → Keeps (start_after u start c) (ticked u c) (used u (k, c))
  used-Keeps (sets i o stats) start k c h t = set_io-Keeps gettimeofday start i o stats k c h t
  used-Keeps (samples stats) start k c h t = sample-Keeps gettimeofday start stats k c h t
  used-Keeps (adds source) start k c h t = ((deltas-Keep gettimeofday start source k t).0, refl)
  used-Keeps reports_recv start k c h t = ((deltas-Keep gettimeofday start k k t).1, refl)
  used-Keeps reports_send start k c h t = ((deltas-Keep gettimeofday start k k t).2, refl)
  used-Keeps ticks start k c h t = (t, refl)

  abbrev starts : List Use → ℤ → Clock → ℤ
  starts [] start c = start
  starts (u ∷ us) start c = starts us (start_after u start c) (ticked u c)

  uses-Starts :
      (us : List Use) (start : ℤ) (k : Kbps) (c : Clock)
      → AfterEpoch gettimeofday
      → IsRead c
      → Starts start k
      → Starts (starts us start c) (uses us (k, c)).0 × IsRead (uses us (k, c)).1
  uses-Starts [] start k c after h t = (t, h)
  uses-Starts (u ∷ us) start k c after h t =
      let (k', c') = used u (k, c) in
      let r = used-Keeps u start k c h t in
      rw (← r.1) (
        uses-Starts us (start_after u start c) k' c' after (rw r.1 (ticked-IsRead u c after h)) r.0)

  starts-kept :
      (us : List Use) (start : ℤ) (c : Clock)
      → eqb_ℤ start (pos 0) ≡ false
      → starts us start c ≡ start
  starts-kept [] start c z = refl
  starts-kept (sets i o stats ∷ us) start c z = rw z (starts-kept us start c z)
  starts-kept (samples stats ∷ us) start c z = starts-kept us start c z
  starts-kept (adds source ∷ us) start c z = starts-kept us start c z
  starts-kept (reports_recv ∷ us) start c z = starts-kept us start c z
  starts-kept (reports_send ∷ us) start c z = starts-kept us start c z
  starts-kept (ticks ∷ us) start c z = starts-kept us start (update_system_time_ms gettimeofday c) z

  starts-began :
      (us : List Use) (c : Clock)
      → AfterEpoch gettimeofday
      → IsRead c
      → starts us (pos 0) c ≡ began us c
  starts-began [] c after h = refl
  starts-began (sets i o stats ∷ us) c after h =
      starts-kept us (c.cache_us /ℤ pos 1000) c (read_start gettimeofday c.cache_us h)
  starts-began (samples stats ∷ us) c after h = starts-began us c after h
  starts-began (adds source ∷ us) c after h = starts-began us c after h
  starts-began (reports_recv ∷ us) c after h = starts-began us c after h
  starts-began (reports_send ∷ us) c after h = starts-began us c after h
  starts-began (ticks ∷ us) c after h =
      starts-began us (update_system_time_ms gettimeofday c) after
        (update-IsRead gettimeofday c after h)

  get_kbps-Starts :
      (start : ℤ) (k : Kbps) (c : Clock)
      → IsRead c
      → Starts start k
      → (get_send_kbps gettimeofday k c ≡ (mean_kbps (get_send_bytes k) start c, c))
        × (get_recv_kbps gettimeofday k c ≡ (mean_kbps (get_recv_bytes k) start c, c))
  unfolding get_send_kbps get_recv_kbps
  get_kbps-Starts start k c h t =
      ground (arith, get_system_time_ms-IsRead gettimeofday c h, t.input, t.output)

  -- Each rate divides by the time since the other slice's start, yet both are what they are to be
  -- where the clock has been read before the statistic is used: whatever is done with a new
  -- statistic, `get_send_kbps` and `get_recv_kbps` give the mean of the bytes sent and of the bytes
  -- received since the first session began (since the epoch, where none has), and leave the clock
  -- alone.
  pub mean_since_began :
      (us : List Use) (c : Clock)
      → AfterEpoch gettimeofday
      → IsRead c
      → let (k, c') = uses us (new_kbps, c) in
        (get_send_kbps gettimeofday k c' ≡ (mean_kbps (get_send_bytes k) (began us c) c', c'))
        × (get_recv_kbps gettimeofday k c' ≡ (mean_kbps (get_recv_bytes k) (began us c) c', c'))
  mean_since_began us c after h =
      let (k, c') = uses us (new_kbps, c) in
      let (t, h') =
        uses-Starts us (pos 0) new_kbps c after h (record { input = refl; output = refl }) in
      rw (← (starts-began us c after h)) (get_kbps-Starts (starts us (pos 0) c) k c' h' t)
