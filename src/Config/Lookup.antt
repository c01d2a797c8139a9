-- ===== src/Config/Lookup.antt =====
-- What the map holds after the members of the JSON object have been put in.
use srslog.Base.{
  ◌≡◌, refl, inl, inr, Bool, false, ◌||◌, Option, none, some, Option-cases, List, [], ◌∷◌, arith,
  if◌then◌else◌,
}
use srslog.Bytes.{Bytes, beq}
use srslog.Bytes.Equality.{beq_iff}
use srslog.Config.{find_value}
use srslog.Config.Json.{StringMap, CJson, lookup, insert, insert_items}

-- What `get_value` leaves in its argument `value`.
abbrev pub or_value : Option Bytes → Bytes → Bytes
or_value none value = value
or_value (some v) value = v

pub find_value-lookup :
    (m : StringMap) (key value : Bytes) → find_value m key value ≡ or_value (lookup key m) value
unfolding find_value
find_value-lookup [] key value = refl
find_value-lookup ((k, v) ∷ m) key value = ground (arith, find_value-lookup m key value)

abbrev pub or_else {ℓ} : {A : Type ℓ} → Option A → Option A → Option A
or_else none o = o
or_else (some a) o = some a

lookup-insert :
    (j k v : Bytes) (m : StringMap)
    → lookup j (insert k v m) ≡ or_else (lookup j m) (if beq k j then some v else none)
unfolding insert
lookup-insert j k v [] = refl
lookup-insert j k v ((i, w) ∷ m) =
    ground (arith, lookup-insert j k v m, beq_iff i k, beq_iff i j, beq_iff k j)

abbrev pub contains : List Bytes → Bytes → Bool
contains [] key = false
contains (k ∷ ks) key = beq k key || contains ks key

-- The text of a string member.
abbrev pub text_of : Option (Option Bytes) → Option Bytes
text_of none = none
text_of (some t) = t

module _ (cjson : CJson) (root : cjson.Item) where
  pub lookup-insert_items :
      (j : Bytes) (keys : List Bytes) (m m' : StringMap)
      → insert_items cjson root keys m ≡ some m'
      → lookup j m'
        ≡ or_else
            (lookup j m)
            (if contains keys j then text_of (cjson.get_object_item root j) else none)
  unfolding insert_items
  lookup-insert_items j [] m m' h = ground arith
  lookup-insert_items j (k ∷ ks) m m' h = elim (Option-cases (cjson.get_object_item root k)) [
    | inl e ↦
        let ih = lookup-insert_items j ks m m' (rw (e, insert_items) at h) in
        ground (arith, ih, e, beq_iff k j)
    | inr (none, e) ↦ cc (rw (e, insert_items) at h)
    | inr (some v, e) ↦
        let ih = lookup-insert_items j ks (insert k v m) m' (rw (e, insert_items) at h) in
        ground (arith, ih, e, beq_iff k j, lookup-insert j k v m)
  ]
