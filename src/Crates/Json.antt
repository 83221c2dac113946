-- ===== src/Crates/Json.antt =====
-- serde_json, with the feature `preserve_order`.
pub mod Fields
pub mod Tree
use mathlib.Core.List.{foldl}
use did_rust.Prelude.{
  Text, Bytes, text_eq, has_nul, ◌≡◌, Bool, true, false, List, Option, none, some, ◌⊎◌,
  if◌then◌else◌,
}
use did_rust.Prelude.Utf8.{is_utf8}

-- The variants of `Value`.
pub data Variant (V M N : Type 0) : Type 0 where
  null : Variant V M N
  bool : Bool → Variant V M N
  number : N → Variant V M N
  string : Text → Variant V M N
  array : List V → Variant V M N
  object : M → Variant V M N

-- A `String` is valid UTF-8.
abbrev pub IsValid : {V M N : Type 0} → Variant V M N → Type 0
IsValid (string t) = is_utf8 t ≡ true
IsValid _ = Unit

pub record Json : Type 1 where
  pub Value : Type 0
  pub Map : Type 0
  pub Number : Type 0
  -- A value of a variant, and the match on a value.
  pub value : Variant Value Map Number → Value
  pub variant : Value → Variant Value Map Number
  pub as_str : Value → Option Text
  pub as_object : Value → Option Map
  -- `value.get(key)`
  pub value_get : Value → Text → Option Value
  -- `Map::new`, `get`, `insert` and `remove`
  pub new : Map
  pub get : Map → Text → Option Value
  pub insert : Map → Text → Value → Map
  pub remove : Map → Text → Map
  pub from_str : Text → Text ⊎ Value
  -- `serde_json::to_vec`, and `Value::to_string`
  pub to_vec : Value → Text ⊎ Bytes
  pub to_string : Value → Text

module _ (J : Json) where
  open J use {Value, Map, Number, value, new, insert}

  abbrev pub str_variant : Variant Value Map Number → Option Text
  str_variant (string t) = some t
  str_variant _ = none

  abbrev pub object_variant : Variant Value Map Number → Option Map
  object_variant (object m) = some m
  object_variant _ = none

  abbrev pub string_value : Text → Value
  string_value t = value (string t)

  -- `json!({ … })`
  unfoldable pub json_object : List (Text × Value) → Value
  json_object fields = value (object (foldl (λ m f. insert m f.0 f.1) new fields))

pub record IsJson (J : Json) : Type 0 where
  pub variant-value : (x : Variant J.Value J.Map J.Number) → IsValid x → J.variant (J.value x) ≡ x
  pub as_str_lem : (v : J.Value) → J.as_str v ≡ str_variant J (J.variant v)
  pub as_object_lem : (v : J.Value) → J.as_object v ≡ object_variant J (J.variant v)
  -- Indexing gives the field of an object, and nothing of any other value.
  pub value_get-object : (m : J.Map) (k : Text) → J.value_get (J.value (object m)) k ≡ J.get m k
  pub value_get_none :
      (v : J.Value) (k : Text) → object_variant J (J.variant v) ≡ none → J.value_get v k ≡ none
  -- The strings are valid texts.
  pub as_str-is_utf8 : (v : J.Value) {t : Text} → J.as_str v ≡ some t → is_utf8 t ≡ true
  pub get-new : (k : Text) → J.get J.new k ≡ none
  pub get-insert :
      (m : J.Map) (j k : Text) (v : J.Value)
      → J.get (J.insert m j v) k ≡ (if text_eq j k then some v else J.get m k)
  pub get-remove :
      (m : J.Map) (j k : Text) → J.get (J.remove m j) k ≡ (if text_eq j k then none else J.get m k)
  -- A new key goes to the end of the map, and the removal of the last entry moves no other.
  pub remove-insert :
      (m : J.Map) (k : Text) (v : J.Value) → J.get m k ≡ none → J.remove (J.insert m k v) k ≡ m
  -- A control character is printed as an escape sequence, so no print has a NUL.
  pub to_string-has_nul : (v : J.Value) → has_nul (J.to_string v) ≡ false
