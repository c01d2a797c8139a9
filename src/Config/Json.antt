-- ===== src/Config/Json.antt =====
-- src/json/json_process.cpp: some string members of a JSON object, put into a map.
use srslog.Base.{Option, none, some, List, [], ◌∷◌, if◌then◌else◌}
use srslog.Bytes.{Bytes, beq}

-- `std::map<std::string, std::string>`, whose keys are distinct. Iteration in the order of the keys
-- is not observed: the program looks for one key, or asks for the size.
abbrev pub StringMap : Type 0
StringMap = List (Bytes × Bytes)

abbrev pub lookup : Bytes → StringMap → Option Bytes
lookup key [] = none
lookup key ((k, v) ∷ m) = if beq k key then some v else lookup key m

-- `map::insert`, which leaves a key that is there as it is.
unfoldable pub insert : Bytes → Bytes → StringMap → StringMap
insert key value [] = (key, value) ∷ []
insert key value ((k, v) ∷ m) = if beq k key then (k, v) ∷ m else (k, v) ∷ insert key value m

-- What the program uses of cJSON: a parse, and a member of an object by name, with its
-- `valuestring`, which is null where the member is no string.
pub record CJson : Type 1 where
  pub Item : Type 0
  pub parse : Bytes → Option Item
  pub get_object_item : Item → Bytes → Option (Option Bytes)

module _ (cjson : CJson) where
  open cjson use {Item, parse, get_object_item}

  unfoldable pub insert_items : Item → List Bytes → StringMap → Option StringMap
  insert_items root [] res = some res
  insert_items root (key ∷ keys) res = elim (get_object_item root key) [
    | none ↦ insert_items root keys res
    | some item ↦ elim item [
      | none ↦ none
      | some value ↦ insert_items root keys (insert key value res)
    ]
  ]

  -- `none` where a string is made from a null `valuestring`, which is undefined in C++.
  unfoldable pub parse_json_no_array : Bytes → List Bytes → StringMap → Option StringMap
  parse_json_no_array text keys res = elim (parse text) [
    | none ↦ some res
    | some root ↦ insert_items root keys res
  ]
