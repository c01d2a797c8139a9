-- ===== src/ErrorCode.antt =====
-- src/base/app_error_code.h and app_error_code.cpp: the return codes. The header defines five names
-- twice; the preprocessor keeps the later value, which stands here.
use srslog.Base.{Bool, ◌||◌}
use srslog.Base.Int.{ℤ, pos, eqb_ℤ}

abbrev pub success : ℤ
success = pos 0

abbrev pub socket_create : ℤ
socket_create = pos 1000

abbrev pub socket_setreuse : ℤ
socket_setreuse = pos 1001

abbrev pub socket_bind : ℤ
socket_bind = pos 1002

abbrev pub socket_listen : ℤ
socket_listen = pos 1003

abbrev pub socket_closed : ℤ
socket_closed = pos 1004

abbrev pub socket_read : ℤ
socket_read = pos 1007

abbrev pub socket_read_fully : ℤ
socket_read_fully = pos 1008

abbrev pub socket_write : ℤ
socket_write = pos 1009

abbrev pub socket_timeout : ℤ
socket_timeout = pos 1011

abbrev pub st_set_epoll : ℤ
st_set_epoll = pos 1013

abbrev pub st_initialize : ℤ
st_initialize = pos 1014

abbrev pub st_open_socket : ℤ
st_open_socket = pos 1015

abbrev pub st_create_cycle_thread : ℤ
st_create_cycle_thread = pos 1017

abbrev pub pid_acquire : ℤ
pid_acquire = pos 1034

abbrev pub pid_already_running : ℤ
pid_already_running = pos 1035

abbrev pub pid_lock : ℤ
pid_lock = pos 1036

abbrev pub pid_truncate_file : ℤ
pid_truncate_file = pos 1037

abbrev pub pid_write_file : ℤ
pid_write_file = pos 1038

abbrev pub pid_get_file_info : ℤ
pid_get_file_info = pos 1039

abbrev pub pid_set_file_info : ℤ
pid_set_file_info = pos 1040

abbrev pub create_pipe : ℤ
create_pipe = pos 1048

abbrev pub exceed_threads : ℤ
exceed_threads = pos 1051

abbrev pub config_invalid : ℤ
config_invalid = pos 3000

abbrev pub file_open : ℤ
file_open = pos 4001

abbrev pub point_null : ℤ
point_null = pos 5000

unfoldable pub is_client_gracefully_close : ℤ → Bool
is_client_gracefully_close code =
    eqb_ℤ code socket_read || (eqb_ℤ code socket_read_fully || eqb_ℤ code socket_write)
