-- ===== src/Credential/Fields.antt =====
-- The fields of a document, as the checks read them.
use did_rust.Prelude.{Text, str, text_eq, true, false, some, none, ◌≡◌}
use did_rust.Prelude.Utf8.{is_utf8}
use did_rust.Crates.Json.{object, string_value}
use did_rust.Crates.Json.Fields.{as_object-object, as_str-string, get-insert_self, get-insert_ne}
use did_rust.Services.{Services, IsLawful}
use did_rust.Credential.{get_str, get_object, map_get_str, payload_value}

module _ (S : Services) where
  open S use {json}

  -- A field of an object, read as a string or as an object.
  pub get_str-object :
      IsLawful S
      → (m : json.Map) (k : Text) → get_str S (json.value (object m)) k ≡ map_get_str S m k
  get_str-object L m k = rw (L.json.value_get-object m k, get_str)

  pub map_get_str-insert_ne :
      IsLawful S
      → (m : json.Map) (j k : Text) (v : json.Value) → text_eq j k ≡ false
      → map_get_str S (json.insert m j v) k ≡ map_get_str S m k
  map_get_str-insert_ne L m j k v h = rw (get-insert_ne json L.json m j k v h, map_get_str)

  pub map_get_str-insert_self :
      IsLawful S
      → (m : json.Map) (k t : Text) → is_utf8 t ≡ true
      → map_get_str S (json.insert m k (string_value json t)) k ≡ some t
  map_get_str-insert_self L m k t h = rw (
    get-insert_self json L.json m k (string_value json t),
    map_get_str,
    as_str-string json L.json t h,
  )

  pub get_object-object :
      IsLawful S
      → (m n : json.Map) (k : Text) → json.get m k ≡ some (json.value (object n))
      → get_object S (json.value (object m)) k ≡ some n
  get_object-object L m n k h =
      rw (L.json.value_get-object m k, h, get_object, as_object-object json L.json n)

  -- The payload of a signed document is the document before the proof was put in.
  pub payload_value-insert :
      IsLawful S
      → (m : json.Map) (proof : json.Value) → json.get m (str "proof") ≡ none
      → payload_value S (json.value (object (json.insert m (str "proof") proof)))
        ≡ json.value (object m)
  unfolding payload_value
  payload_value-insert L m proof absent = rw (
    as_object-object json L.json (json.insert m (str "proof") proof),
    payload_value,
    L.json.remove-insert m (str "proof") proof absent,
  )
