-- ===== src/Descriptors/StaleLog.antt =====
-- The descriptor that a log keeps behind its close, and a client that is given the number.
use mathlib.Core.Path.{subst}
use srslog.Base.{
  sym, ℕ, ◌≡◌, refl, ap, ◌∙◌, true, false, Option, some, List, [], ◌∷◌, ◌++◌, arith, length,
}
use srslog.Base.Int.{pos, ◌<ℤ◌, leb_ℤ}
use srslog.Bytes.{Bytes, codes, empty}
use srslog.Clock.{Timeval}
use srslog.Config.{ConfigInfo, get_log_file_name, get_max_connections}
use srslog.Listener.{ListenerType, Listener}
use srslog.Log.{FastLog, LogEnv, Output, write_fd, close_fd, print, trace, on_reload_log_file}
use srslog.Log.Level.{level_trace}
use srslog.Log.Header.{Tm, header_text}
use srslog.Log.Line.{line_of, after, deliver}
use srslog.Log.Overflow.{Runs, start_of, message_delivered}
use srslog.Log.Reload.{on_reload_log_file_stale}
use srslog.Server.{Server, contains, AcceptEnv, accept_client}
use srslog.Server.Manager.{contains-append}
use srslog.Descriptors.{Table, open_fd, close, Library, Books, arrives, arrive, book, release}
use srslog.Descriptors.Closing.{over}

-- What the output of a log closes.
unfoldable pub log_closes : List Output → Table → Table
log_closes [] t = t
log_closes (close_fd fd ∷ outs) t = log_closes outs (close fd t)
log_closes (print color line ∷ outs) t = log_closes outs t
log_closes (write_fd fd line ∷ outs) t = log_closes outs t

-- The log goes on as it was, and its next line goes to its descriptor.
stale_trace :
    (env : LogEnv) (l : FastLog) (tag : Option Bytes) (message : Bytes) (usec : ℕ) (tm : Tm)
    → l.log_to_file_tank ≡ true
    → pos 0 <ℤ l.fd
    → Runs env l level_trace usec tm
    → let text =
        start_of
          (header_text false tag tm usec (codes "trace") env.pid env.context_id env.errno)
          message in
      (l' : FastLog) × (trace tag (some message) env l
        ≡ some (l', write_fd l.fd (line_of text) ∷ []))
stale_trace env l tag message usec tm tank open_fd r =
    let text =
      start_of (header_text false tag tm usec (codes "trace") env.pid env.context_id env.errno)
        message in
    let (buf, e, whole) =
      message_delivered level_trace (codes "trace") false tag message env l usec tm r in
    let d : deliver env level_trace l (line_of text) ≡ write_fd l.fd (line_of text) ∷ [] =
      ground arith in
    (
      record (after env l) { log_data = buf },
      e ∙ ap (λ o. some (record (after env l) { log_data = buf }, o)) d,
    )

accept_client-room :
    (config : ConfigInfo) (a : AcceptEnv) (h : ℕ) (s : Server)
    → pos (length s.conns) <ℤ get_max_connections config
    → accept_client config a ListenerType.base h s
      ≡ (a.start, record s { conns = s.conns ++ a.address ∷ [] }, [])
unfolding accept_client
accept_client-room config a h s room =
    let below : leb_ℤ (get_max_connections config) (pos (length s.conns)) ≡ false = ground arith in
    rw below

module _ (st : Library) (gettimeofday : ℕ → Option Timeval) (config : ConfigInfo)
    (meanwhile : Listener → Table → Table) where
  free_arrival :
      (a : AcceptEnv) (h : ℕ) (b : Books)
      → b.table (st.fileno h) ≡ false
      → contains a.address b.server.conns ≡ false
      → pos (length b.server.conns) <ℤ get_max_connections config
      → let b' = book st gettimeofday config meanwhile b (arrives a ListenerType.base h) in
        (contains a.address b'.server.conns ≡ true)
        × (b'.handles a.address ≡ some h)
        × (b'.table (st.fileno h) ≡ true)
  unfolding book arrive release
  free_arrival a h b free absent room =
      let held = contains-append a.address b.server.conns in
      let accepted = accept_client-room config a h b.server room in
      rw (free, absent, arrive, accepted, held) (refl, ground arith, ground arith)

  -- A reload to an empty name of the log's file closes the file's descriptor and keeps its number.
  -- Where the next client is given that number and there is room for it, the client's connection
  -- stands in the manager with that descriptor, and the log's next trace is written to it.
  pub stale_log-writes_client :
      (env env' : LogEnv) (l : FastLog) (c : ConfigInfo) (a : AcceptEnv) (h : ℕ) (b : Books)
      (tag : Option Bytes) (message : Bytes) (usec : ℕ) (tm : Tm)
      → env.config ≡ some c
      → empty (get_log_file_name c) ≡ true
      → l.log_to_file_tank ≡ true
      → pos 0 <ℤ l.fd
      → st.fileno h ≡ l.fd
      → contains a.address b.server.conns ≡ false
      → pos (length b.server.conns) <ℤ get_max_connections config
      → Runs env' l level_trace usec tm
      → let (ret, l', outs) = on_reload_log_file env l in
        let b' =
          book st gettimeofday config meanwhile
            (record b { table = log_closes outs b.table })
            (arrives a ListenerType.base h) in
        let text =
          start_of
            (header_text false tag tm usec (codes "trace") env'.pid env'.context_id env'.errno)
            message in
        (contains a.address b'.server.conns ≡ true)
        × (over st (b'.handles a.address) l.fd ≡ true)
        × (b'.table l.fd ≡ true)
        × ((l'' : FastLog) × (trace tag (some message) env' l'
              ≡ some (l'', write_fd l.fd (line_of text) ∷ [])))
  unfolding log_closes close
  stale_log-writes_client env env' l c a h b tag message usec tm configured unnamed tank open_fd
        same absent room r =
      let b₀ = record b { table = close l.fd b.table } in
      let free : close l.fd b.table (st.fileno h) ≡ false = rw same (ground arith) in
      let (held, handle, taken) = free_arrival a h b₀ free absent room in
      let b' = book st gettimeofday config meanwhile b₀ (arrives a ListenerType.base h) in
      let mine : over st (some h) l.fd ≡ true = rw same (ground arith) in
      rw ((on_reload_log_file_stale env l c configured tank open_fd unnamed).0) (
        held,
        subst (λ x. over st x l.fd ≡ true) (sym handle) mine,
        subst (λ d. b'.table d ≡ true) same taken,
        stale_trace env' l tag message usec tm tank open_fd r,
      )
