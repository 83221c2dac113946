-- ===== src/Envelope.antt =====
-- src/lib.rs: the JSON replies of the C interface and of the WASM interface.
pub mod Shape
use did_rust.Prelude.{Text, str, true, false, [], ◌∷◌, Option, none, some}
use did_rust.Crates.Json.{Json, null, bool, string_value, json_object}

module _ (J : Json) where
  -- `json!` of an `Option<String>`
  abbrev pub optional : Option Text → J.Value
  optional none = J.value null
  optional (some t) = string_value J t

  unfoldable pub error_object : Text → J.Value
  error_object e = json_object J ((str "error", string_value J e) ∷ [])

  -- The public part of derived keys. The secrets have no field.
  unfoldable pub derived_envelope : Text → Text → J.Value
  derived_envelope did nostr_pubkey_hex = json_object J (
      (str "valid", J.value (bool true))
      ∷ (str "did", string_value J did)
      ∷ (str "nostr_pubkey_hex", string_value J nostr_pubkey_hex)
      ∷ (str "error", J.value null)
      ∷ [])

  unfoldable pub derivation_failed : Text → J.Value
  derivation_failed e = json_object J (
      (str "valid", J.value (bool false))
      ∷ (str "did", string_value J [])
      ∷ (str "nostr_pubkey_hex", string_value J [])
      ∷ (str "error", string_value J e)
      ∷ [])

  unfoldable pub sealed_envelope : Text → J.Value
  sealed_envelope ciphertext_hex = json_object J (
      (str "valid", J.value (bool true))
      ∷ (str "ciphertext_hex", string_value J ciphertext_hex)
      ∷ (str "error", J.value null)
      ∷ [])

  unfoldable pub sealing_failed : Text → J.Value
  sealing_failed e = json_object J (
      (str "valid", J.value (bool false))
      ∷ (str "ciphertext_hex", string_value J [])
      ∷ (str "error", string_value J e)
      ∷ [])

  unfoldable pub opened_envelope : Option Text → Text → J.Value
  opened_envelope plaintext_utf8 plaintext_hex = json_object J (
      (str "valid", J.value (bool true))
      ∷ (str "plaintext_utf8", optional plaintext_utf8)
      ∷ (str "plaintext_hex", string_value J plaintext_hex)
      ∷ (str "error", J.value null)
      ∷ [])

  unfoldable pub opening_failed : Text → J.Value
  opening_failed e = json_object J (
      (str "valid", J.value (bool false))
      ∷ (str "plaintext_utf8", J.value null)
      ∷ (str "plaintext_hex", string_value J [])
      ∷ (str "error", string_value J e)
      ∷ [])
