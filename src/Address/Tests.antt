-- ===== src/Address/Tests.antt =====
-- Addresses at fixed answers of the system.
use srslog.Base.{ℕ, ◌-◌, ◌/◌, ◌%◌, ◌^◌, false, ◌≡◌, refl, Option, none, some, List, [], ◌∷◌, ◌++◌}
use srslog.Base.Int.{pos, negsuc}
use srslog.Bytes.{Bytes, codes, c_str}
use srslog.Address.{Sockaddr, af_inet, localhost, srs_get_local_ipv4_ips}
use srslog.Address.Endian.{srs_is_little_endian, answers, answers-endian}
use srslog.Address.Local.{text_of, outside_texts, local_ips_retrieved}

-- Writes a host that is its own text, and fails at an empty one.
abbrev ntop : ℕ → Bytes → Option Bytes
ntop family [] = none
ntop family (b ∷ host) = some (b ∷ host)

abbrev device : ℕ → Bytes → Option Sockaddr
device family host = some (record { family = family; host = host })

abbrev devices : List (Option Sockaddr)
devices = none ∷ device af_inet localhost ∷ device 10 [] ∷ device af_inet (codes "10.0.0.7") ∷ []

abbrev broken : List (Option Sockaddr)
broken = device af_inet [] ∷ device af_inet (codes "10.0.0.8") ∷ []

found : outside_texts ntop devices ≡ codes "10.0.0.7" ∷ []
unfolding text_of c_str
found = refl

local_ips_retrieved_example :
    srs_get_local_ipv4_ips ntop (some (devices ++ broken)) [] ≡ outside_texts ntop devices
local_ips_retrieved_example = local_ips_retrieved ntop devices broken refl refl

-- A machine that stores the high byte first.
abbrev big : ℕ → ℕ → ℕ
big v i = v / 256 ^ (3 - i) % 256

high_byte_first : answers big 3 (negsuc 0) ≡ false ∷ false ∷ false ∷ []
high_byte_first = (answers-endian big 3).1 (λ v i h. refl)

-- The first call fills the static variable.
big_first : srs_is_little_endian big (negsuc 0) ≡ (false, pos 0)
unfolding srs_is_little_endian
big_first = refl
