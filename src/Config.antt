-- ===== src/Config.antt =====
-- src/conf/config_info.h and config_info.cpp with src/json/json_process.cpp. The JSON library
-- (cJSON, sdk/json) is a parameter; a file is its bytes.
pub mod Json
pub mod Lookup
pub mod Load
pub mod Values
mod Tests
use srslog.Base.{
  ℕ, zero, suc, ◌≡◌, Bool, true, false, Option, none, some, List, [], ◌∷◌, ◌++◌, length, take, drop,
  ltb, if◌then◌else◌,
}
use srslog.Base.Int.{ℤ, pos}
use srslog.Bytes.{Bytes, codes, beq, c_str, atoi}
use srslog.ErrorCode.{success, config_invalid, file_open}
use Json.{StringMap, CJson, parse_json_no_array}

pub record ConfigInfo : Type 0 where
  pub json : Bytes
  pub json_map : StringMap

abbrev pub new_config : ConfigInfo
new_config = record { json = []; json_map = [] }

abbrev pub conf_listen : Bytes
conf_listen = codes "listen"

abbrev pub conf_max_connections : Bytes
conf_max_connections = codes "max_connections"

abbrev pub conf_daemon : Bytes
conf_daemon = codes "daemon"

abbrev pub conf_log_tank : Bytes
conf_log_tank = codes "log_tank"

abbrev pub conf_log_level : Bytes
conf_log_level = codes "log_level"

abbrev pub conf_log_file : Bytes
conf_log_file = codes "log_file"

abbrev pub conf_pid_file : Bytes
conf_pid_file = codes "pid_file"

abbrev pub const_keys : List Bytes
const_keys =
    conf_listen ∷ conf_max_connections ∷ conf_daemon ∷ conf_log_tank ∷ conf_log_level
    ∷ conf_log_file ∷ conf_pid_file ∷ []

abbrev pub buff_size : ℕ
buff_size = 1024

-- The `while (1)` of `load_configfile` over the bytes that the stream still holds: `fread` takes up
-- to a buffer of them.
unfoldable pub read_chunks : ℕ → Bytes → Bytes → Bytes
read_chunks zero left json = json
read_chunks (suc f) left json =
    let rest = read_chunks f (drop buff_size left) (json ++ take buff_size left) in
    elim left [ [] ↦ json | _ ∷ _ ↦ rest ]

-- `fopen` gives the content of the file with that name, `none` where it fails. The outer `none` is
-- the null pointer. The number of bytes, plus one, bounds the rounds.
unfoldable pub load_configfile : (Bytes → Option Bytes) → Option Bytes → ConfigInfo → ℤ × ConfigInfo
load_configfile fopen none c = (file_open, c)
load_configfile fopen (some file) c = elim (fopen file) [
  | none ↦ (file_open, c)
  | some content ↦ (success, record c { json = read_chunks (suc (length content)) content c.json })
]

module _ (cjson : CJson) where
  -- `none` where a string is made from a null pointer.
  unfoldable pub parse_and_check : ConfigInfo → Option (ℤ × ConfigInfo)
  parse_and_check c = elim (parse_json_no_array cjson (c_str c.json) const_keys c.json_map) [
    | none ↦ none
    | some m ↦
        some (if ltb 0 (length m) then success else config_invalid, record c { json_map = m })
  ]

-- `get_value(key, value)`: `value` stays as it was where the key is missing.
unfoldable pub find_value : StringMap → Bytes → Bytes → Bytes
find_value [] key value = value
find_value ((k, v) ∷ m) key value = if beq k key then v else find_value m key value

unfoldable pub get_value : ConfigInfo → Bytes → Bytes → Bytes
unfolding find_value
get_value c key value = find_value c.json_map key value

unfoldable pub get_daemon : ConfigInfo → Bool
get_daemon c =
    let res = get_value c conf_daemon [] in
    if beq res (codes "on") then true else if beq res (codes "off") then false else true

unfoldable pub get_log_tank_file : ConfigInfo → Bool
get_log_tank_file c =
    let res = get_value c conf_log_tank [] in
    if beq res (codes "file") then true else if beq res (codes "console") then false else true

unfoldable pub get_log_level : ConfigInfo → Bytes
get_log_level c = get_value c conf_log_level []

unfoldable pub get_log_file_name : ConfigInfo → Bytes
get_log_file_name c = get_value c conf_log_file []

unfoldable pub get_pid_file : ConfigInfo → Bytes
get_pid_file c = get_value c conf_pid_file []

unfoldable pub get_max_connections : ConfigInfo → ℤ
get_max_connections c = atoi (c_str (get_value c conf_max_connections []))

-- 9.9 seconds, in milliseconds.
abbrev pub get_heartbeat_interval : ConfigInfo → ℤ
get_heartbeat_interval c = pos 9900

unfoldable pub get_listen : ConfigInfo → List Bytes
get_listen c = get_value c conf_listen [] ∷ []
