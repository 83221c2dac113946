-- ===== src/Envelope/Shape.antt =====
-- The JSON replies of the C interface and of the WASM interface, as a client reads them.
use did_rust.Prelude.{Text, str, text_eq, Option, some, true, false, ◌≡◌}
use did_rust.Crates.Json.{IsJson, null, bool, string_value}
use did_rust.Services.{Services}
use did_rust.Credential.Verdict.{value_get-json_object}
use did_rust.Envelope.{
  optional, derived_envelope, derivation_failed, sealed_envelope, opened_envelope,
}

module _ (S : Services) where
  open S use {json}

  -- An object that says that keys were derived, with an identifier and a Nostr key.
  pub record IsDerived (v : json.Value) (did nostr_pubkey_hex : Text) : Type 0 where
    pub has_valid : json.value_get v (str "valid") ≡ some (json.value (bool true))
    pub has_did : json.value_get v (str "did") ≡ some (string_value json did)
    pub has_nostr_pubkey_hex :
        json.value_get v (str "nostr_pubkey_hex") ≡ some (string_value json nostr_pubkey_hex)
    pub has_error : json.value_get v (str "error") ≡ some (json.value null)

  -- An object that says that no keys were derived, with an error.
  pub record IsDerivationError (v : json.Value) (error : Text) : Type 0 where
    pub has_valid : json.value_get v (str "valid") ≡ some (json.value (bool false))
    pub has_did : json.value_get v (str "did") ≡ some (string_value json (str ""))
    pub has_nostr_pubkey_hex :
        json.value_get v (str "nostr_pubkey_hex") ≡ some (string_value json (str ""))
    pub has_error : json.value_get v (str "error") ≡ some (string_value json error)

  -- An object with a ciphertext in hex.
  pub record IsSealed (v : json.Value) (ciphertext_hex : Text) : Type 0 where
    pub has_valid : json.value_get v (str "valid") ≡ some (json.value (bool true))
    pub has_ciphertext_hex :
        json.value_get v (str "ciphertext_hex") ≡ some (string_value json ciphertext_hex)
    pub has_error : json.value_get v (str "error") ≡ some (json.value null)

  -- An object with a plaintext in hex, and as a text if it is one.
  pub record IsOpened (v : json.Value) (plaintext_utf8 : Option Text) (plaintext_hex : Text)
      : Type 0 where
    pub has_valid : json.value_get v (str "valid") ≡ some (json.value (bool true))
    pub has_plaintext_utf8 :
        json.value_get v (str "plaintext_utf8") ≡ some (optional json plaintext_utf8)
    pub has_plaintext_hex :
        json.value_get v (str "plaintext_hex") ≡ some (string_value json plaintext_hex)
    pub has_error : json.value_get v (str "error") ≡ some (json.value null)

  module _ (L : IsJson json) where
    pub derived_envelope-IsDerived :
        (did nostr_pubkey_hex : Text)
        → IsDerived (derived_envelope json did nostr_pubkey_hex) did nostr_pubkey_hex
    unfolding derived_envelope str text_eq
    derived_envelope-IsDerived did nostr_pubkey_hex = record {
      has_valid = value_get-json_object S L _ (str "valid");
      has_did = value_get-json_object S L _ (str "did");
      has_nostr_pubkey_hex = value_get-json_object S L _ (str "nostr_pubkey_hex");
      has_error = value_get-json_object S L _ (str "error");
    }

    pub derivation_failed-IsDerivationError :
        (error : Text) → IsDerivationError (derivation_failed json error) error
    unfolding derivation_failed str text_eq
    derivation_failed-IsDerivationError error = record {
      has_valid = value_get-json_object S L _ (str "valid");
      has_did = value_get-json_object S L _ (str "did");
      has_nostr_pubkey_hex = value_get-json_object S L _ (str "nostr_pubkey_hex");
      has_error = value_get-json_object S L _ (str "error");
    }

    pub sealed_envelope-IsSealed :
        (ciphertext_hex : Text) → IsSealed (sealed_envelope json ciphertext_hex) ciphertext_hex
    unfolding sealed_envelope str text_eq
    sealed_envelope-IsSealed ciphertext_hex = record {
      has_valid = value_get-json_object S L _ (str "valid");
      has_ciphertext_hex = value_get-json_object S L _ (str "ciphertext_hex");
      has_error = value_get-json_object S L _ (str "error");
    }

    pub opened_envelope-IsOpened :
        (plaintext_utf8 : Option Text) (plaintext_hex : Text)
        → IsOpened (opened_envelope json plaintext_utf8 plaintext_hex) plaintext_utf8 plaintext_hex
    unfolding opened_envelope str text_eq
    opened_envelope-IsOpened plaintext_utf8 plaintext_hex = record {
      has_valid = value_get-json_object S L _ (str "valid");
      has_plaintext_utf8 = value_get-json_object S L _ (str "plaintext_utf8");
      has_plaintext_hex = value_get-json_object S L _ (str "plaintext_hex");
      has_error = value_get-json_object S L _ (str "error");
    }
