-- ===== src/Log/Buffer.antt =====
-- The log's buffer of LOG_MAX_SIZE bytes in src/base/app_log.cpp, and the C library's `snprintf` into
-- it. `none` is a write outside the buffer.
use srslog.Base.{
  ℕ, suc, ◌+◌, ◌-◌, ◌^◌, Option, none, some, [], ◌∷◌, ◌++◌, length, take, drop, leb, if◌then◌else◌,
}
use srslog.Base.Int.{ℤ, pos, negsuc}
use srslog.Bytes.{Bytes}

abbrev pub log_max_size : ℕ
log_max_size = 4096

abbrev pub log_tail_size : ℕ
log_tail_size = 1

-- An `int` as a `size_t`.
abbrev pub to_size : ℤ → ℕ
to_size (pos n) = n
to_size (negsuc n) = 2 ^ 64 - 1 - n

-- The bytes of `s` put at offset `at`.
abbrev pub overwrite : ℕ → Bytes → Bytes → Bytes
overwrite at s buf = take at buf ++ (s ++ drop (at + length s) buf)

unfoldable pub store : ℤ → Bytes → Bytes → Option Bytes
store (negsuc n) s buf = none
store (pos at) s buf = if leb (at + length s) (length buf) then some (overwrite at s buf) else none

-- `snprintf(buf + at, n, ...)` of the formatted text: at most n - 1 bytes and a zero, nothing for
-- n = 0.
unfoldable pub snprintf : ℤ → ℕ → Bytes → Bytes → Option Bytes
unfolding store
snprintf at ℕ.zero text buf = some buf
snprintf at (suc n) text buf = store at (take n text ++ (0 ∷ [])) buf
