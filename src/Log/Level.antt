-- ===== src/Log/Level.antt =====
-- `SrsLogLevel` of src/base/app_log.h, `srs_get_log_level` of app_utility.cpp, and the color in which
-- the console shows a level.
use srslog.Base.{ℕ, ◌==◌, leb, if◌then◌else◌}
use srslog.Bytes.{Bytes, codes, beq}

abbrev pub level_verbose : ℕ
level_verbose = 1

abbrev pub level_info : ℕ
level_info = 2

abbrev pub level_trace : ℕ
level_trace = 3

abbrev pub level_warn : ℕ
level_warn = 4

abbrev pub level_error : ℕ
level_error = 5

abbrev pub level_disabled : ℕ
level_disabled = 6

unfoldable pub srs_get_log_level : Bytes → ℕ
srs_get_log_level level =
    if beq (codes "verbose") level
    then level_verbose
    else if beq (codes "info") level
    then level_info
    else if beq (codes "trace") level
    then level_trace
    else if beq (codes "warn") level
    then level_warn
    else if beq (codes "error") level
    then level_error
    else level_disabled

pub data Color : Type 0 where
  plain yellow red : Color

abbrev pub color_of : ℕ → Color
color_of level =
    if leb level level_trace
    then Color.plain
    else if level == level_warn
    then Color.yellow
    else Color.red
