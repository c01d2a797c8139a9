-- ===== src/Kbps/Accounting.antt =====
-- Byte accounting: what the operations of `SrsKbps` do to the totals, and a server's statistic that
-- follows a connection's through its deltas.
use srslog.Base.{ℕ, ◌≡◌, refl, Option, none, some, List, [], ◌∷◌}
use srslog.Base.Int.{ℤ, ◌+ℤ◌, int_laws}
use srslog.Clock.{Timeval, Clock}
use srslog.Kbps.{
  Slice, Kbps, Statistic, kbps_delta, new_kbps, get_total_bytes, get_recv_bytes, get_send_bytes,
  get_recv_bytes_delta, get_send_bytes_delta, add_delta, save_session, use_io, refresh, sample_at,
  sample_slice, set_starttime, set_slice_io, set_io, sample,
}

-- What a slice has counted when its session ends: all of it if an io was set. What `add_delta` put
-- into a slice with no io is forgotten.
abbrev pub carried : Slice → ℤ
carried s = elim s.io [ none ↦ s.bytes | some _ ↦ get_total_bytes s ]

module _ (gettimeofday : ℕ → Option Timeval) where
  set_slice_io-total :
      (io : Option ℕ) (count : ℕ → ℤ) (s : Slice) (c : Clock)
      → (get_total_bytes (set_slice_io gettimeofday io count s c).0 ≡ carried s)
        × ((set_slice_io gettimeofday io count s c).0.delta_bytes ≡ s.delta_bytes)
        × ((set_slice_io gettimeofday io count s c).0.io ≡ io)
  unfolding set_slice_io set_starttime sample_slice sample_at use_io save_session get_total_bytes
  set_slice_io-total none count s c = grind int_laws
  set_slice_io-total (some p) count s c = grind int_laws

  -- `set_io` starts a session without changing the total of a direction whose io was set; where
  -- none was set the total falls back to the bytes of the earlier sessions. It reports no delta.
  pub set_io-total :
      (i o : Option ℕ) (stats : ℕ → Statistic) (k : Kbps) (c : Clock)
      → let k' = (set_io gettimeofday i o stats k c).0 in
        (get_recv_bytes k' ≡ carried k.is)
        × (get_send_bytes k' ≡ carried k.os)
        × (k'.is.delta_bytes ≡ k.is.delta_bytes)
        × (k'.os.delta_bytes ≡ k.os.delta_bytes)
  unfolding set_io
  set_io-total i o stats k c =
      let (is', c') = set_slice_io gettimeofday i (λ p. (stats p).recv_bytes) k.is c in
      let r = set_slice_io-total i (λ p. (stats p).recv_bytes) k.is c in
      let s = set_slice_io-total o (λ p. (stats p).send_bytes) k.os c' in (r.0, s.0, r.1, s.1)

-- What a history does: the connection starts a session or samples, the server adds the connection's
-- deltas or samples itself.
pub data Event : Type 0 where
  session : Option ℕ → Option ℕ → (ℕ → Statistic) → Event
  sampled : (ℕ → Statistic) → Event
  added : Event
  server_sampled : (ℕ → Statistic) → Event

pub record Meters : Type 0 where
  pub conn : Kbps
  pub server : Kbps
  pub clock : Clock

module _ (gettimeofday : ℕ → Option Timeval) where
  abbrev pub step : Meters → Event → Meters
  step m (session i o stats) =
      let (k, c) = set_io gettimeofday i o stats m.conn m.clock in record m { conn = k; clock = c }
  step m (sampled stats) =
      let (k, c) = sample gettimeofday stats m.conn m.clock in record m { conn = k; clock = c }
  step m added =
      let (k, s) = add_delta kbps_delta m.conn m.server in record m { conn = k; server = s }
  step m (server_sampled stats) =
      let (s, c) = sample gettimeofday stats m.server m.clock in record m { server = s; clock = c }

  abbrev pub run : Meters → List Event → Meters
  run m [] = m
  run m (e ∷ es) = run (step m e) es

-- The server has no io of its own, and has counted what the connection has reported.
record Follows (recv send : ℤ) (m : Meters) : Type 0 where
  no_in : m.server.is.io ≡ none
  no_out : m.server.os.io ≡ none
  received : get_recv_bytes m.server ≡ recv +ℤ m.conn.is.delta_bytes
  sent : get_send_bytes m.server ≡ send +ℤ m.conn.os.delta_bytes

module _ (gettimeofday : ℕ → Option Timeval) (recv send : ℤ) where
  step-Follows :
      (m : Meters) (e : Event) → Follows recv send m → Follows recv send (step gettimeofday m e)
  unfolding sample sample_slice sample_at refresh add_delta get_recv_bytes_delta
      get_send_bytes_delta get_total_bytes
  step-Follows m (session i o stats) f =
      let t = set_io-total gettimeofday i o stats m.conn m.clock in
      record {
        no_in = f.no_in;
        no_out = f.no_out;
        received = rw t.2 f.received;
        sent = rw t.3 f.sent;
      }
  step-Follows m (sampled stats) f = grind int_laws
  step-Follows m added f = grind int_laws
  step-Follows m (server_sampled stats) f = grind int_laws

  run-Follows :
      (m : Meters) (es : List Event)
      → Follows recv send m
      → Follows recv send (run gettimeofday m es)
  run-Follows m [] f = f
  run-Follows m (e ∷ es) f = run-Follows (step gettimeofday m e) es (step-Follows m e f)

added_reports_all :
    (gettimeofday : ℕ → Option Timeval) (m : Meters)
    → let m' = step gettimeofday m added in
      (m'.conn.is.delta_bytes ≡ get_recv_bytes m'.conn)
      × (m'.conn.os.delta_bytes ≡ get_send_bytes m'.conn)
unfolding add_delta get_recv_bytes_delta get_send_bytes_delta get_total_bytes
added_reports_all gettimeofday m = (refl, refl)

-- A server's statistic that has no io and follows one new connection: whatever sessions and samples
-- the history has, once the server has added the connection's deltas its totals have grown by
-- exactly the connection's totals, sent and received, and no byte is counted twice or lost.
pub server_follows_connection :
    (gettimeofday : ℕ → Option Timeval) (server : Kbps) (c : Clock) (es : List Event)
    → server.is.io ≡ none
    → server.os.io ≡ none
    → let start : Meters = record { conn = new_kbps; server = server; clock = c } in
      let m = step gettimeofday (run gettimeofday start es) added in
      (get_recv_bytes m.server ≡ get_recv_bytes server +ℤ get_recv_bytes m.conn)
      × (get_send_bytes m.server ≡ get_send_bytes server +ℤ get_send_bytes m.conn)
server_follows_connection gettimeofday server c es hi ho =
    let start : Meters = record { conn = new_kbps; server = server; clock = c } in
    let recv = get_recv_bytes server in
    let send = get_send_bytes server in
    let begin : Follows recv send start = record {
      no_in = hi;
      no_out = ho;
      received = omega int_laws;
      sent = omega int_laws;
    } in
    let m = run gettimeofday start es in
    let f =
      step-Follows gettimeofday recv send m added
        (run-Follows gettimeofday recv send start es begin) in
    let r = added_reports_all gettimeofday m in (rw (← r.0) f.received, rw (← r.1) f.sent)
