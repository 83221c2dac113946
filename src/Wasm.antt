-- ===== src/Wasm.antt =====
-- src/lib.rs: the module `wasm_api`. Each function has the name of the one that it calls.
pub mod Derives
pub mod RoundTrip
pub mod Safety
use did_rust.Prelude.{
  ℕ, Text, str, Bytes, length, ◌≡◌, Option, none, some, inl, inr, Result, ok, err, panic, ◌==◌,
  if◌then◌else◌,
}
use did_rust.Prelude.Utf8.{from_utf8}
use did_rust.Services.{Services}
use did_rust.Crypto
use did_rust.Crypto.{CryptoError, DerivedIdentity, DependentDerivedKeypair, fmt}
use did_rust.Vault
use did_rust.Credential
use did_rust.Presentation
use did_rust.Did
use did_rust.Envelope.{
  error_object, derived_envelope, derivation_failed, sealed_envelope, sealing_failed,
  opened_envelope, opening_failed,
}

module _ (S : Services) where
  open S use {primitives, json, chrono}
  open primitives use {hex, ed25519}

  -- `hex::decode(s).ok().and_then(…)`, for 32 bytes
  unfoldable pub hex_key : Text → Option Bytes
  hex_key s = elim (hex.decode s) [ inl _ ↦ none | inr v ↦ if length v == 32 then some v else none ]

  -- A result with its error as a JSON object.
  unfoldable pub or_error_object : Result Text Text → Result ⊥ Text
  or_error_object (ok s) = ok s
  or_error_object (err e) = ok (json.to_string (error_object json e))
  or_error_object panic = panic

  unfoldable pub generate_did : ed25519.SigningKey → Text → Result ⊥ Text
  generate_did signing_key method = or_error_object (Did.generate_did S signing_key method)

  unfoldable pub verify_vc : chrono.Time → Text → Result ⊥ Text
  verify_vc now vc_json = Credential.verify_vc S now vc_json

  unfoldable pub verify_vp : (ℕ → chrono.Time) → Text → Result ⊥ Text
  verify_vp clock vp_json = Presentation.verify_vp S clock vp_json

  unfoldable pub issue_vc : Text → Text → Text → Result ⊥ Text
  issue_vc credential_json did key_b58 =
      or_error_object (Credential.issue_vc S credential_json did key_b58)

  unfoldable pub resolve_did : Text → Result ⊥ Text
  resolve_did did = or_error_object (Did.resolve_did S did)

  unfoldable pub derive_identity_from_prf : Text → ℕ → Result ⊥ Text
  derive_identity_from_prf seed_hex index = elim (hex_key seed_hex) [
    | none ↦
        ok (json.to_string (derivation_failed json (str "Invalid PRF seed: expected 32-byte hex")))
    | some seed ↦ elim (Crypto.derive_identity_from_prf primitives seed index) [
      | ok identity ↦
          ok (json.to_string (derived_envelope json identity.did identity.nostr_pubkey_hex))
      | err e ↦ ok (json.to_string (derivation_failed json (fmt e)))
      | panic ↦ panic
    ]
  ]

  unfoldable pub derive_dependent_subkeys : Text → ℕ → Result ⊥ Text
  derive_dependent_subkeys seed_hex index = elim (hex_key seed_hex) [
    | none ↦
        ok (json.to_string (derivation_failed json (str "Invalid root seed: expected 32-byte hex")))
    | some seed ↦ elim (Crypto.derive_dependent_subkeys primitives seed index) [
      | ok subkeys ↦
          ok (json.to_string (derived_envelope json subkeys.did subkeys.nostr_pubkey_hex))
      | err e ↦ ok (json.to_string (derivation_failed json (fmt e)))
      | panic ↦ panic
    ]
  ]

  -- The bytes of a `&str` are its text.
  unfoldable pub encrypt_vault_payload : Bytes → Text → Text → Result ⊥ Text
  encrypt_vault_payload nonce kek_hex plaintext = elim (hex_key kek_hex) [
    | none ↦ ok (json.to_string (sealing_failed json (str "Invalid KEK: expected 32-byte hex")))
    | some kek ↦ elim (Vault.encrypt_vault_payload primitives nonce kek plaintext) [
      | ok sealed ↦ ok (json.to_string (sealed_envelope json (hex.encode sealed)))
      | err e ↦ ok (json.to_string (sealing_failed json (fmt e)))
      | panic ↦ panic
    ]
  ]

  abbrev pub invalid_vault_input : Text
  invalid_vault_input = str "Invalid input: KEK must be 32-byte hex and ciphertext valid hex"

  unfoldable pub open_with : Bytes → Bytes → Result ⊥ Text
  open_with kek ciphertext = elim (Vault.decrypt_vault_payload primitives kek ciphertext) [
    | ok plaintext ↦
        ok (json.to_string (opened_envelope json (from_utf8 plaintext) (hex.encode plaintext)))
    | err e ↦ ok (json.to_string (opening_failed json (fmt e)))
    | panic ↦ panic
  ]

  unfoldable pub decrypt_vault_payload : Text → Text → Result ⊥ Text
  decrypt_vault_payload kek_hex ciphertext_hex = elim (hex_key kek_hex) [
    | none ↦ ok (json.to_string (opening_failed json invalid_vault_input))
    | some kek ↦ elim (hex.decode ciphertext_hex) [
      | inl _ ↦ ok (json.to_string (opening_failed json invalid_vault_input))
      | inr ciphertext ↦ open_with kek ciphertext
    ]
  ]
