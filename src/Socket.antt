-- ===== src/Socket.antt =====
-- src/base/app_st_socket.h and app_st_socket.cpp: a TCP socket over state threads, its timeouts and
-- byte counters. What the `st` library's call gives is an argument, a function of the size and of
-- the timeout that it is called with.
pub mod Counting
mod Tests
use srslog.Base.{ℕ, Bool, ◌&&◌, not, Option, none, some, if◌then◌else◌}
use srslog.Base.Int.{ℤ, pos, ◌+ℤ◌, ltb_ℤ, leb_ℤ, eqb_ℤ}
use srslog.ErrorCode.{success, socket_read, socket_read_fully, socket_write, socket_timeout}

pub record StSocket : Type 0 where
  pub recv_timeout : ℤ
  pub send_timeout : ℤ
  pub recv_bytes : ℤ
  pub send_bytes : ℤ

-- `ST_UTIME_NO_TIMEOUT`, all bits set, read as a 64-bit integer.
abbrev pub no_timeout : ℤ
no_timeout = ℤ.negsuc 0

abbrev pub new_socket : StSocket
new_socket = record {
  recv_timeout = no_timeout;
  send_timeout = no_timeout;
  recv_bytes = pos 0;
  send_bytes = pos 0;
}

abbrev pub etime : ℤ
etime = pos 62

abbrev pub econnreset : ℤ
econnreset = pos 104

-- What a call of the library returns, and `errno` after it.
pub record IoResult : Type 0 where
  pub count : ℤ
  pub errno : ℤ

abbrev pub StCall : Type 0
StCall = ℕ → ℤ → IoResult

-- What an operation returns, what it writes through `nread` or `nwrite`, and `errno` after it.
pub record IoReturn : Type 0 where
  pub ret : ℤ
  pub written : Option ℤ
  pub errno : ℤ

unfoldable pub is_never_timeout : ℤ → Bool
is_never_timeout timeout_us = eqb_ℤ timeout_us no_timeout

abbrev pub set_recv_timeout : ℤ → StSocket → StSocket
set_recv_timeout t s = record s { recv_timeout = t }

abbrev pub set_send_timeout : ℤ → StSocket → StSocket
set_send_timeout t s = record s { send_timeout = t }

-- `*nread = nb_read`, where the pointer is not null.
abbrev pub through : Bool → ℤ → Option ℤ
through wanted n = if wanted then some n else none

abbrev timed_out : IoResult → Bool
timed_out r = ltb_ℤ r.count (pos 0) && eqb_ℤ r.errno etime

unfoldable pub read : StCall → ℕ → Bool → StSocket → IoReturn × StSocket
read st_read size wanted s =
    let r = st_read size s.recv_timeout in
    let w = through wanted r.count in
    if leb_ℤ r.count (pos 0)
    then (if timed_out r
        then (record { ret = socket_timeout; written = w; errno = r.errno }, s)
        else if eqb_ℤ r.count (pos 0)
        then (record { ret = socket_read; written = w; errno = econnreset }, s)
        else (record { ret = socket_read; written = w; errno = r.errno }, s))
    else (
      record { ret = success; written = w; errno = r.errno },
      record s { recv_bytes = s.recv_bytes +ℤ r.count },
    )

unfoldable pub read_fully : StCall → ℕ → Bool → StSocket → IoReturn × StSocket
read_fully st_read_fully size wanted s =
    let r = st_read_fully size s.recv_timeout in
    let w = through wanted r.count in
    if not (eqb_ℤ r.count (pos size))
    then (if timed_out r
        then (record { ret = socket_timeout; written = w; errno = r.errno }, s)
        else if leb_ℤ (pos 0) r.count
        then (record { ret = socket_read_fully; written = w; errno = econnreset }, s)
        else (record { ret = socket_read_fully; written = w; errno = r.errno }, s))
    else (
      record { ret = success; written = w; errno = r.errno },
      record s { recv_bytes = s.recv_bytes +ℤ r.count },
    )

-- `write` and `writev` share their text but for the library's call.
unfoldable pub write : StCall → ℕ → Bool → StSocket → IoReturn × StSocket
write st_write size wanted s =
    let r = st_write size s.send_timeout in
    let w = through wanted r.count in
    if leb_ℤ r.count (pos 0)
    then (if timed_out r
        then (record { ret = socket_timeout; written = w; errno = r.errno }, s)
        else (record { ret = socket_write; written = w; errno = r.errno }, s))
    else (
      record { ret = success; written = w; errno = r.errno },
      record s { send_bytes = s.send_bytes +ℤ r.count },
    )

unfoldable pub writev : StCall → ℕ → Bool → StSocket → IoReturn × StSocket
unfolding write
writev st_writev iov_size wanted s = write st_writev iov_size wanted s
