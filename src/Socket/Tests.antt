-- ===== src/Socket/Tests.antt =====
-- The theorems about sockets at fixed inputs.
use srslog.Base.{◌≡◌, List, [], ◌∷◌}
use srslog.Base.Int.{ℤ, pos, negsuc, ◌+ℤ◌}
use srslog.Socket.{StCall, etime, new_socket}
use srslog.Socket.Counting.{Io, reads, reads_fully, writes, writes_vector, io_run, io_run-counts}

abbrev gives : ℤ → StCall
gives n size timeout = record { count = n; errno = pos 0 }

abbrev times_out : StCall
times_out size timeout = record { count = negsuc 0; errno = etime }

abbrev calls : List Io
calls =
    reads (gives (pos 5)) 10
    ∷ writes (gives (pos 7)) 7
    ∷ reads_fully (gives (pos 3)) 8
    ∷ writes_vector times_out 2
    ∷ []

io_run-counts_example :
    let (r, w, s') = io_run calls new_socket in
    (s'.recv_bytes ≡ new_socket.recv_bytes +ℤ r) × (s'.send_bytes ≡ new_socket.send_bytes +ℤ w)
io_run-counts_example = io_run-counts calls new_socket
