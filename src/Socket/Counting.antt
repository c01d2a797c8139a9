-- ===== src/Socket/Counting.antt =====
-- The outcome of each call, and the counters over a history of calls.
use srslog.Base.{
  ℕ, ◌≡◌, ◌↔◌, ap, ◌∙◌, Bool, true, ◌&&◌, not, none, some, List, [], ◌∷◌, arith, if◌then◌else◌,
}
use srslog.Base.Int.{ℤ, pos, ◌+ℤ◌, ◌≤ℤ◌, ◌<ℤ◌, int_laws, +ℤ_assoc, eqb_ℤ, leb_ℤ}
use srslog.ErrorCode.{success, socket_timeout, is_client_gracefully_close}
use srslog.Socket.{
  StSocket, IoResult, StCall, IoReturn, etime, econnreset, read, read_fully, write, writev,
}

-- A call of `read` on a socket, by what the library gave at the socket's own receive timeout.
pub record Reads (r : IoResult) (s : StSocket) (o : IoReturn) (s' : StSocket) : Type 0 where
  -- it succeeds exactly if bytes came
  pub succeeds : (o.ret ≡ success) ↔ (pos 0 <ℤ r.count)
  pub times_out : (o.ret ≡ socket_timeout) ↔ ((r.count <ℤ pos 0) × (r.errno ≡ etime))
  -- any other outcome counts as the client's leaving
  pub leaves :
      (is_client_gracefully_close o.ret ≡ true)
      ↔ ((r.count ≤ℤ pos 0) × ¬ ((r.count <ℤ pos 0) × (r.errno ≡ etime)))
  pub errno : o.errno ≡ (if eqb_ℤ r.count (pos 0) then econnreset else r.errno)
  pub socket :
      s' ≡ (if eqb_ℤ o.ret success then record s { recv_bytes = s.recv_bytes +ℤ r.count } else s)

-- `read` calls the library with the socket's receive timeout. It succeeds exactly on a positive count,
-- and then adds it to the received bytes; it times out exactly on a negative count with ETIME; every
-- other count is one that `srs_is_client_gracefully_close` takes for the client's leaving; a count of
-- zero sets ECONNRESET; and a call that fails leaves the socket as it was.
pub read-Reads :
    (st_read : StCall) (size : ℕ) (wanted : Bool) (s : StSocket)
    → let (o, s') = read st_read size wanted s in Reads (st_read size s.recv_timeout) s o s'
unfolding read is_client_gracefully_close
read-Reads st_read size wanted s = record {
  succeeds = (ground arith, ground arith);
  times_out = (ground arith, ground arith);
  leaves = (ground arith, ground arith);
  errno = ground arith;
  socket = ground arith;
}

-- A full read succeeds exactly if all the bytes asked for came.
pub record ReadsFully (size : ℕ) (r : IoResult) (s : StSocket) (o : IoReturn) (s' : StSocket)
    : Type 0 where
  pub succeeds : (o.ret ≡ success) ↔ (r.count ≡ pos size)
  pub times_out : (o.ret ≡ socket_timeout) ↔ ((r.count <ℤ pos 0) × (r.errno ≡ etime))
  pub errno :
      o.errno
      ≡ (if leb_ℤ (pos 0) r.count && not (eqb_ℤ r.count (pos size)) then econnreset else r.errno)
  pub socket :
      s' ≡ (if eqb_ℤ o.ret success then record s { recv_bytes = s.recv_bytes +ℤ pos size } else s)

-- `read_fully` calls the library with the socket's receive timeout. It succeeds exactly if the
-- count is the size, times out exactly on a negative count with ETIME, sets ECONNRESET where fewer
-- bytes came, adds the size to the counter on success, and else leaves the socket as it was.
pub read_fully-ReadsFully :
    (st_read_fully : StCall) (size : ℕ) (wanted : Bool) (s : StSocket)
    → let (o, s') = read_fully st_read_fully size wanted s in
      ReadsFully size (st_read_fully size s.recv_timeout) s o s'
unfolding read_fully
read_fully-ReadsFully st_read_fully size wanted s = record {
  succeeds = (ground arith, ground arith);
  times_out = (ground arith, ground arith);
  errno = ground arith;
  socket = ground arith;
}

-- A call of the socket, with what the library would give.
pub data Io : Type 0 where
  reads reads_fully writes writes_vector : StCall → ℕ → Io

abbrev pub io_step : Io → StSocket → IoReturn × StSocket
io_step (reads st n) s = read st n true s
io_step (reads_fully st n) s = read_fully st n true s
io_step (writes st n) s = write st n true s
io_step (writes_vector st n) s = writev st n true s

-- The bytes that a call reports: what it writes through its pointer, if it succeeds.
abbrev pub reported : IoReturn → ℤ
reported o = if eqb_ℤ o.ret success then elim o.written [ none ↦ pos 0 | some n ↦ n ] else pos 0

abbrev pub received : Io → ℤ → ℤ
received (reads st n) b = b
received (reads_fully st n) b = b
received (writes st n) b = pos 0
received (writes_vector st n) b = pos 0

abbrev pub sent : Io → ℤ → ℤ
sent (reads st n) b = pos 0
sent (reads_fully st n) b = pos 0
sent (writes st n) b = b
sent (writes_vector st n) b = b

-- The socket after a history, and the bytes that its calls reported, received and sent.
abbrev pub io_run : List Io → StSocket → ℤ × ℤ × StSocket
io_run [] s = (pos 0, pos 0, s)
io_run (i ∷ is) s =
    let (o, s') = io_step i s in
    let (r, w, s'') = io_run is s' in (received i (reported o) +ℤ r, sent i (reported o) +ℤ w, s'')

io_step-counts :
    (i : Io) (s : StSocket)
    → let (o, s') = io_step i s in
      (s'.recv_bytes ≡ s.recv_bytes +ℤ received i (reported o))
      × (s'.send_bytes ≡ s.send_bytes +ℤ sent i (reported o))
unfolding read read_fully write writev
io_step-counts (reads st n) s = grind int_laws
io_step-counts (reads_fully st n) s = grind int_laws
io_step-counts (writes st n) s = grind int_laws
io_step-counts (writes_vector st n) s = grind int_laws

-- Over any history of reads and writes the two counters grow by exactly the bytes that the
-- successful calls reported, received and sent; failed calls and the other direction add nothing.
pub io_run-counts :
    (is : List Io) (s : StSocket)
    → let (r, w, s') = io_run is s in
      (s'.recv_bytes ≡ s.recv_bytes +ℤ r) × (s'.send_bytes ≡ s.send_bytes +ℤ w)
io_run-counts [] s = (omega int_laws, omega int_laws)
io_run-counts (i ∷ is) s =
    let one = io_step-counts i s in
    let rest = io_run-counts is (io_step i s).1 in
    (
      rest.0 ∙ ap (λ b. b +ℤ (io_run is (io_step i s).1).0) one.0 ∙ +ℤ_assoc _ _ _,
      rest.1 ∙ ap (λ b. b +ℤ (io_run is (io_step i s).1).1) one.1 ∙ +ℤ_assoc _ _ _,
    )
