-- ===== src/Config/Tests.antt =====
-- Runs on the settings of conf/jvmbs.json, and the theorems at that input.
use srslog.Base.{◌≡◌, refl, Option, none, some, [], ◌∷◌, if◌then◌else◌}
use srslog.ErrorCode.{success}
use srslog.Bytes.{Bytes, codes, beq, c_str}
use srslog.Config.{
  ConfigInfo, conf_daemon, conf_listen, conf_max_connections, get_value, parse_and_check,
  new_config, load_configfile,
}
use srslog.Config.Json.{StringMap, CJson, lookup, insert, insert_items, parse_json_no_array}
use srslog.Config.Load.{load_configfile_result}
use srslog.Config.Values.{IsParsed, get_value_parsed}

-- A JSON object of strings, given as its members; every text but the empty one parses to it.
abbrev settings : StringMap
settings =
    (conf_listen, codes "17644")
    ∷ (conf_max_connections, codes "1000")
    ∷ (conf_daemon, codes "off")
    ∷ []

abbrev member : StringMap → Bytes → Option (Option Bytes)
member m key = elim (lookup key m) [ none ↦ none | some v ↦ some (some v) ]

abbrev parse_settings : Bytes → Option StringMap
parse_settings [] = none
parse_settings (_ ∷ _) = some settings

abbrev fixed_json : CJson
fixed_json = record { Item = StringMap; parse = parse_settings; get_object_item = member }

abbrev parsed_config : ConfigInfo
parsed_config = record { json = codes "x"; json_map = settings }

settings-IsParsed : IsParsed fixed_json (codes "x") settings success parsed_config
unfolding parse_and_check parse_json_no_array insert_items insert c_str
settings-IsParsed = record { root_of = refl; result = refl }

get_value_parsed_example : get_value parsed_config conf_listen [] ≡ codes "17644"
get_value_parsed_example =
    get_value_parsed fixed_json (codes "x") settings success parsed_config settings-IsParsed
      conf_listen

abbrev one_file : Bytes → Option Bytes
one_file name = if beq name (codes "a.json") then some (codes "text") else none

load_configfile_result_example :
    load_configfile one_file (some (codes "a.json")) new_config
    ≡ (success, record { json = codes "text"; json_map = [] })
load_configfile_result_example = load_configfile_result one_file (some (codes "a.json")) new_config
