-- ===== src/Log/Reload.antt =====
-- Reloading the level and the file of a running log.
use srslog.Base.{
  ℕ, ◌<◌, ◌≡◌, ◌≢◌, ltb, lt→ltb, Bool, true, false, Option, some, [], ◌∷◌, arith, if◌then◌else◌,
}
use srslog.Base.Int.{ℤ, pos, negsuc, ◌<ℤ◌, eqb_ℤ}
use srslog.ErrorCode.{success}
use srslog.Bytes.{Bytes, codes, empty}
use srslog.Bytes.Equality.{beq_ne}
use srslog.Config.{ConfigInfo, get_log_level, get_log_file_name}
use srslog.Log.Line.{target_fd}
use srslog.Log.{
  FastLog, LogEnv, close_fd, log_line, verbose, info, trace, warn, error, on_reload_log_level,
  on_reload_log_file, reopen, open_log_file, enoent,
}
use srslog.Log.Level.{srs_get_log_level, level_disabled}

-- The descriptor that opening a named file gives: of the file that is there, or of a new one.
abbrev pub opened : LogEnv → Bytes → ℤ
opened env name =
    if eqb_ℤ (env.open_file name).0 (negsuc 0)
    then (if eqb_ℤ (pos (env.open_file name).1) (pos enoent)
        then env.create_file name
        else (env.open_file name).0)
    else (env.open_file name).0

module _ (env : LogEnv) (l : FastLog) (c : ConfigInfo) (configured : env.config ≡ some c) where
  -- While the log writes to a file, reloading the file's name closes the old descriptor once and
  -- takes the one that opening the new name gives, creating the file where it is missing.
  pub on_reload_log_file_reopens :
      l.log_to_file_tank ≡ true
      → pos 0 <ℤ l.fd
      → empty (get_log_file_name c) ≡ false
      → on_reload_log_file env l
        ≡ (success, record l { fd = opened env (get_log_file_name c) }, close_fd l.fd ∷ [])
  unfolding on_reload_log_file reopen open_log_file
  on_reload_log_file_reopens tank open_fd named = ground arith

  -- Where the new name is empty the old descriptor is closed and kept: the next line is written to
  -- a closed descriptor.
  pub on_reload_log_file_stale :
      l.log_to_file_tank ≡ true
      → pos 0 <ℤ l.fd
      → empty (get_log_file_name c) ≡ true
      → (on_reload_log_file env l ≡ (success, l, close_fd l.fd ∷ [])) × (target_fd env l ≡ l.fd)
  unfolding on_reload_log_file reopen open_log_file
  on_reload_log_file_stale tank open_fd unnamed = (ground arith, ground arith)

-- A word that is none of the five levels' names.
abbrev pub IsUnknown : Bytes → Type 0
IsUnknown w =
    (w ≢ codes "verbose")
    × (w ≢ codes "info")
    × (w ≢ codes "trace")
    × (w ≢ codes "warn")
    × (w ≢ codes "error")

srs_get_log_level_unknown : (w : Bytes) → IsUnknown w → srs_get_log_level w ≡ level_disabled
unfolding srs_get_log_level
srs_get_log_level_unknown w (a, b, c, d, e) = rw (
  beq_ne (codes "verbose") w a,
  beq_ne (codes "info") w b,
  beq_ne (codes "trace") w c,
  beq_ne (codes "warn") w d,
  beq_ne (codes "error") w e,
)

pub log_line_disabled :
    (level : ℕ) (name : Bytes) (ih we : Bool) (tag message : Option Bytes) (env : LogEnv)
    (l : FastLog)
    → level < l.level
    → log_line level name ih we tag message env l ≡ some (l, [])
unfolding log_line
log_line_disabled level name ih we tag message env l h =
    let below : ltb level l.level ≡ true = lt→ltb level l.level h in rw below

-- Reloading a level whose word is none of the five, a misspelt one for instance, turns the log off:
-- no method puts anything out any more.
pub unknown_level_silences :
    (env env' : LogEnv) (l : FastLog) (c : ConfigInfo) (tag message : Option Bytes)
    → env.config ≡ some c
    → IsUnknown (get_log_level c)
    → let l' = (on_reload_log_level env l).1 in
      (verbose tag message env' l' ≡ some (l', []))
      × (info tag message env' l' ≡ some (l', []))
      × (trace tag message env' l' ≡ some (l', []))
      × (warn tag message env' l' ≡ some (l', []))
      × (error tag message env' l' ≡ some (l', []))
unfolding on_reload_log_level
unknown_level_silences env env' l c tag message e u =
    let l' = (on_reload_log_level env l).1 in
    let off : l'.level ≡ 6 = rw e (srs_get_log_level_unknown (get_log_level c) u) in
    (
      log_line_disabled 1 _ _ _ tag message env' l' (omega (arith, off)),
      log_line_disabled 2 _ _ _ tag message env' l' (omega (arith, off)),
      log_line_disabled 3 _ _ _ tag message env' l' (omega (arith, off)),
      log_line_disabled 4 _ _ _ tag message env' l' (omega (arith, off)),
      log_line_disabled 5 _ _ _ tag message env' l' (omega (arith, off)),
    )
