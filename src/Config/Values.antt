-- ===== src/Config/Values.antt =====
-- What a parsed configuration answers: the members of the JSON object, and nothing else.
use srslog.Base.{
  ℕ, ◌≡◌, ◌↔◌, refl, sym, ◌∙◌, ap, inl, inr, true, false, Option, none, some, Bool-cases, List, [],
  ◌∷◌, arith, if◌then◌else◌, length, ltb,
}
use srslog.Base.Int.{ℤ, pos}
use srslog.ErrorCode.{success, config_invalid}
use srslog.Bytes.{Bytes, c_str, codes, decimal, atoi}
use srslog.Bytes.Equality.{beq_iff, beq_self}
use srslog.Bytes.Decimal.{atoi-decimal, c_str-decimal}
use srslog.Config.{
  ConfigInfo, const_keys, conf_daemon, conf_max_connections, get_value, parse_and_check, get_daemon,
  get_max_connections,
}
use srslog.Config.Json.{StringMap, CJson, lookup, insert_items, parse_json_no_array}
use srslog.Config.Lookup.{find_value-lookup, lookup-insert_items, or_value, contains, text_of}

abbrev unparsed : Bytes → ConfigInfo
unparsed text = record { json = text; json_map = [] }

parse_json-insert_items :
    (cjson : CJson) (root : cjson.Item) (text : Bytes) (keys : List Bytes) (m : StringMap)
    → cjson.parse text ≡ some root
    → parse_json_no_array cjson text keys m ≡ insert_items cjson root keys m
unfolding parse_json_no_array
parse_json-insert_items cjson root text keys m e = rw (e, parse_json_no_array)

checked_map :
    (cjson : CJson) (text : Bytes) (ret : ℤ) (c : ConfigInfo) (o : Option StringMap)
    → parse_json_no_array cjson (c_str text) const_keys [] ≡ o
    → parse_and_check cjson (unparsed text) ≡ some (ret, c)
    → (o ≡ some c.json_map)
      × (ret ≡ (if ltb 0 (length c.json_map) then success else config_invalid))
unfolding parse_and_check
checked_map cjson text ret c none e h = cc (rw (e, parse_and_check) at h)
checked_map cjson text ret c (some m) e h =
    let h' = rw (e, parse_and_check) at h in (ground arith, ground arith)

-- Parsing the text gave the JSON object `root` and the configuration `c` with the code `ret`.
pub record IsParsed (cjson : CJson) (text : Bytes) (root : cjson.Item) (ret : ℤ) (c : ConfigInfo)
    : Type 0 where
  pub root_of : cjson.parse (c_str text) ≡ some root
  pub result : parse_and_check cjson (unparsed text) ≡ some (ret, c)

none≢some : {v : Bytes} → none ≡ some v → ⊥
none≢some e = cc

daemon_word :
    (c : ConfigInfo) (o : Option Bytes)
    → get_value c conf_daemon [] ≡ or_value o []
    → (get_daemon c ≡ false) ↔ (o ≡ some (codes "off"))
unfolding get_daemon
daemon_word c none e = rw e (ground arith, λ h. cc)
daemon_word c (some v) e = rw e (
  (λ h. ground (arith, beq_iff v (codes "off"), h)),
  (λ h. ground (arith, beq_iff v (codes "off"), beq_iff v (codes "on"), h)),
)

module _ (cjson : CJson) (text : Bytes) (root : cjson.Item) (ret : ℤ) (c : ConfigInfo) where
  module _ (parsed : IsParsed cjson text root ret c) where
    parsed_items :
        (insert_items cjson root const_keys [] ≡ some c.json_map)
        × (ret ≡ (if ltb 0 (length c.json_map) then success else config_invalid))
    parsed_items =
        checked_map cjson text ret c (insert_items cjson root const_keys [])
          (parse_json-insert_items cjson root (c_str text) const_keys [] parsed.root_of)
          parsed.result

    parsed_lookup :
        (key : Bytes)
        → lookup key c.json_map
          ≡ (if contains const_keys key then text_of (cjson.get_object_item root key) else none)
    parsed_lookup key = lookup-insert_items cjson root key const_keys [] c.json_map parsed_items.0

    -- After a parse every key has the value of the JSON member of that name, if it is one of the
    -- seven known keys and the member is there, and the empty value otherwise.
    pub get_value_parsed :
        (key : Bytes)
        → get_value c key []
          ≡ or_value
              (if contains const_keys key then text_of (cjson.get_object_item root key) else none)
              []
    unfolding get_value
    get_value_parsed key =
        find_value-lookup c.json_map key [] ∙ ap (λ o. or_value o []) (parsed_lookup key)

    -- The code is success exactly when the JSON object has one of the known keys as a string.
    pub parse_succeeds_iff : (ret ≡ success) ↔ (
        (key : Bytes) × (v : Bytes) × (contains const_keys key ≡ true)
        × (text_of (cjson.get_object_item root key) ≡ some v))
    parse_succeeds_iff = (
      succeeds c.json_map refl,
      λ (key, v, k, e). found c.json_map key v refl (known_lookup key v k e),
    )
      where
        code_of :
            (m : StringMap)
            → c.json_map ≡ m
            → ret ≡ (if ltb 0 (length m) then success else config_invalid)
        code_of m e = rw (← e) parsed_items.1

        succeeds :
            (m : StringMap)
            → c.json_map ≡ m
            → ret ≡ success
            → (key : Bytes) × (v : Bytes) × (contains const_keys key ≡ true)
              × (text_of (cjson.get_object_item root key) ≡ some v)
        succeeds [] e r = absurd (ground (arith, code_of [] e))
        succeeds ((k, v) ∷ m) e r =
            let first : lookup k ((k, v) ∷ m) ≡ some v = rw (beq_self k) in
            let held : some v
                ≡ (if contains const_keys k then text_of (cjson.get_object_item root k) else none) =
              sym first ∙ ap (lookup k) (sym e) ∙ parsed_lookup k in
            elim (Bool-cases (contains const_keys k)) [
              | inl known ↦ (k, v, known, sym (rw known at held))
              | inr unknown ↦ absurd (none≢some (sym (rw unknown at held)))
            ]

        known_lookup :
            (key v : Bytes)
            → contains const_keys key ≡ true
            → text_of (cjson.get_object_item root key) ≡ some v
            → lookup key c.json_map ≡ some v
        known_lookup key v k e = (rw k at (parsed_lookup key)) ∙ e

        found :
            (m : StringMap) (key v : Bytes)
            → c.json_map ≡ m
            → lookup key c.json_map ≡ some v
            → ret ≡ success
        found [] key v e h = absurd (none≢some (rw e at h))
        found (x ∷ m) key v e h = ground (arith, code_of (x ∷ m) e)

    -- A number written for `max_connections` is the limit that the server reads.
    pub get_max_connections_parsed :
        (n : ℕ)
        → cjson.get_object_item root conf_max_connections ≡ some (some (decimal n))
        → get_max_connections c ≡ pos n
    unfolding get_max_connections
    get_max_connections_parsed n e =
        ap (λ v. atoi (c_str v)) (get_value_parsed conf_max_connections ∙ rw e)
        ∙ ap atoi (c_str-decimal n)
        ∙ atoi-decimal n

    -- Only the word `off` turns the daemon mode off.
    pub get_daemon_iff :
        (get_daemon c ≡ false)
        ↔ (text_of (cjson.get_object_item root conf_daemon) ≡ some (codes "off"))
    unfolding get_daemon
    get_daemon_iff =
        daemon_word c (text_of (cjson.get_object_item root conf_daemon))
          (get_value_parsed conf_daemon)
