-- ===== src/Log/Header.antt =====
-- The header of a log line, `SrsFastLog::generate_header` of src/base/app_log.cpp, as the four
-- formats print it. The fields of `struct tm` and the ids are not negative.
use srslog.Base.{
  ℕ, ◌+◌, ◌-◌, ◌/◌, Bool, Option, none, some, [], ◌∷◌, ◌++◌, length, replicate, if◌then◌else◌,
}
use srslog.Bytes.{Bytes, codes, decimal}

pub record Tm : Type 0 where
  pub tm_year : ℕ
  pub tm_mon : ℕ
  pub tm_mday : ℕ
  pub tm_hour : ℕ
  pub tm_min : ℕ
  pub tm_sec : ℕ

-- `%0wd`
unfoldable pub padded : ℕ → ℕ → Bytes
padded w n = replicate (w - length (decimal n)) b'0' ++ decimal n

unfoldable pub bracketed : Bytes → Bytes
bracketed s = b'[' ∷ (s ++ codes "]")

-- `%d-%02d-%02d %02d:%02d:%02d.%03d`
unfoldable pub stamp : Tm → ℕ → Bytes
unfolding padded
stamp tm usec =
    decimal (1900 + tm.tm_year)
    ++ (codes "-"
        ++ (padded 2 (1 + tm.tm_mon)
            ++ (codes "-"
                ++ (padded 2 tm.tm_mday
                    ++ (codes " "
                        ++ (padded 2 tm.tm_hour
                            ++ (codes ":"
                                ++ (padded 2 tm.tm_min
                                    ++ (codes ":"
                                        ++ (padded 2 tm.tm_sec
                                            ++ (codes "." ++ padded 3 (usec / 1000))))))))))))

unfoldable pub timestamp : Tm → ℕ → Bytes
unfolding bracketed stamp
timestamp tm usec = bracketed (stamp tm usec)

unfoldable pub bracketed_tag : Option Bytes → Bytes
bracketed_tag none = []
bracketed_tag (some tag) = bracketed tag

-- The errno stands in the header of warnings and errors only.
unfoldable pub header_text : Bool → Option Bytes → Tm → ℕ → Bytes → ℕ → ℕ → ℕ → Bytes
unfolding timestamp bracketed_tag bracketed
header_text error tag tm usec level_name pid context_id errno =
    timestamp tm usec
    ++ (bracketed level_name
        ++ (bracketed_tag tag
            ++ (bracketed (decimal pid)
                ++ (bracketed (decimal context_id)
                    ++ ((if error then bracketed (decimal errno) else []) ++ codes " ")))))
