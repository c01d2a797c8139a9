-- ===== src/Log/Macros.antt =====
-- `srs_verbose`, `srs_info`, `srs_trace`, `srs_warn` and `srs_error` of src/base/app_log.h, by which
-- the program logs: with no tag, and with the id of the thread that logs.
use srslog.Base.{ℕ, Option, none, some, List}
use srslog.Bytes.{Bytes}
use srslog.Context.{ThreadContext, get_id}
use srslog.Log.{FastLog, LogEnv, Output}
use srslog.Log.Sink.{Severity, says, log_call}

-- The macro of a severity in the thread `self`. `none` is a write outside the buffer.
unfoldable pub log_from :
    Severity
    → ℕ
    → Bytes
    → LogEnv
    → ThreadContext
    → FastLog
    → Option (ThreadContext × FastLog × List Output)
log_from m self message env c l =
    let (id, c') = get_id self c in
    elim (log_call (says m none message (record env { context_id = id })) l) [
      | none ↦ none
      | some (l', outs) ↦ some (c', l', outs)
    ]
