-- ===== src/Reload.antt =====
-- src/base/app_reload_handler.h and app_reload_handler.cpp: the notifications of a reload, and what
-- the two classes that override some of them, `SrsServer` and `SrsFastLog`, do on each; built without
-- SRS_AUTO_HTTP_SERVER and SRS_AUTO_HTTP_API.
use srslog.Base.{ℕ, Option, none, some, List, []}
use srslog.Base.Int.{ℤ}
use srslog.Bytes.{Bytes}
use srslog.ErrorCode.{success}
use srslog.Config.{ConfigInfo}
use srslog.Listener.{SocketEnv}
use srslog.PidFile.{PidEnv, Effect}
use srslog.PidFile
use srslog.Log.{FastLog, LogEnv, Output}
use srslog.Log
use srslog.Server.{Server, Event, listen_all}

-- The methods of `ISrsReloadHandler`, with the vhost and the ingest that some are given.
pub data Reload : Type 0 where
  on_reload_listen on_reload_pid on_reload_log_tank on_reload_log_level on_reload_log_file : Reload
  on_reload_pithy_print on_reload_http_api_enabled on_reload_http_api_disabled : Reload
  on_reload_http_stream_enabled on_reload_http_stream_disabled on_reload_http_stream_updated :
      Reload
  on_reload_vhost_http_updated : Reload
  on_reload_vhost_added on_reload_vhost_removed on_reload_vhost_atc on_reload_vhost_gop_cache :
      Bytes → Reload
  on_reload_vhost_queue_length on_reload_vhost_time_jitter on_reload_vhost_forward : Bytes → Reload
  on_reload_vhost_hls on_reload_vhost_dvr on_reload_vhost_transcode : Bytes → Reload
  on_reload_ingest_removed on_reload_ingest_added on_reload_ingest_updated : Bytes → Bytes → Reload

-- The method of the class `ISrsReloadHandler` itself, the same for all.
abbrev pub default_reload : Reload → ℤ
default_reload r = success

-- What the server has, with the effects on its pid file and on its listeners.
pub record ServerReload : Type 0 where
  pub ret : ℤ
  pub server : Server
  pub effects : List Effect
  pub events : List Event

abbrev pub unchanged : ℤ → Server → ServerReload
unchanged ret s = record { ret = ret; server = s; effects = []; events = [] }

-- `none` is a failed assertion of `listen`. A notification is handled undisturbed: what other threads
-- do while `listen` waits for the thread of an old listener or starts that of a new one is left out.
unfoldable pub server_reload :
    ConfigInfo → (ℕ → SocketEnv) → PidEnv → Reload → Server → Option ServerReload
server_reload config sockets pid on_reload_listen s = elim (listen_all config sockets s) [
  | none ↦ none
  | some (ret, s', events) ↦ some (record { ret = ret; server = s'; effects = []; events = events })
]
server_reload config sockets pid on_reload_pid s =
    let (ret, fd, effects) = PidFile.on_reload_pid pid s.pid_fd in
    some (record { ret = ret; server = record s { pid_fd = fd }; effects = effects; events = [] })
server_reload config sockets pid r s = some (unchanged (default_reload r) s)

-- What the log has, with what it puts out.
unfoldable pub log_reload : LogEnv → Reload → FastLog → ℤ × FastLog × List Output
log_reload env on_reload_log_tank l = Log.on_reload_log_tank env l
log_reload env on_reload_log_level l =
    let (ret, l') = Log.on_reload_log_level env l in (ret, l', [])
log_reload env on_reload_log_file l = Log.on_reload_log_file env l
log_reload env r l = (default_reload r, l, [])
