-- ===== src/Credential.antt =====
-- src/lib.rs: `internal_verify_vc`, `verify_vc` and `issue_vc`. A function that returns a `String`
-- has the error type ⊥: it returns, or it panics.
pub mod Accepts
pub mod Verdict
pub mod Https
pub mod Reissue
pub mod Fields
pub mod Issue
pub mod Issuable
use did_rust.Prelude.{
  Text, str, Bytes, length, Bool, true, false, [], ◌∷◌, ◌++◌, Option, none, some, Result, ok, err,
  panic, ok_or, returned, map_err, ◌>>=◌, ◌>>◌, guard, ◌==◌, not, inl, inr,
}
use did_rust.Services.{Services}
use did_rust.Signature.{internal_verify_signature}
use did_rust.Crates.Json.{bool, object, string_value, json_object}

module _ (S : Services) where
  open S use {primitives, json, chrono}
  open primitives use {bs58, hex, ed25519}

  abbrev pub get_str : json.Value → Text → Option Text
  get_str v k = elim (json.value_get v k) [ none ↦ none | some x ↦ json.as_str x ]

  abbrev pub get_object : json.Value → Text → Option json.Map
  get_object v k = elim (json.value_get v k) [ none ↦ none | some x ↦ json.as_object x ]

  abbrev pub map_get_str : json.Map → Text → Option Text
  map_get_str m k = elim (json.get m k) [ none ↦ none | some x ↦ json.as_str x ]

  -- Whether the document says, in a date that can be read, that it has expired by `now`.
  unfoldable pub is_expired : chrono.Time → Option Text → Bool
  is_expired now none = false
  is_expired now (some exp) = elim (chrono.parse_from_rfc3339 exp) [
    | none ↦ false
    | some exp_time ↦ chrono.is_after now exp_time
  ]

  -- The document without its proof; `as_object().cloned().unwrap_or_default()`.
  unfoldable pub payload_value : json.Value → json.Value
  payload_value v = json.value (
      object (json.remove (elim (json.as_object v) [ none ↦ json.new | some m ↦ m ]) (str "proof")))

  unfoldable pub internal_verify_vc : chrono.Time → json.Value → Result Text (Unit {0})
  internal_verify_vc now vc = do
    proof ← ok_or (str "Missing proof object") (get_object vc (str "proof"))
    issuer_did ← ok_or (str "Missing issuer DID") (get_str vc (str "issuer"))
    guard (not (is_expired now (get_str vc (str "expirationDate")))) (str "VC is expired")
    sig_hex ← ok_or (str "Missing proofValue") (map_get_str proof (str "proofValue"))
    payload_bytes ←
        map_err (λ _. str "Failed to serialize VC payload")
          (returned (json.to_vec (payload_value vc)))
    map_err (λ _. str "VC Signature Failure")
        (internal_verify_signature S payload_bytes sig_hex issuer_did)

  -- `json!({"valid": …, "error": …, "details": {}})`
  unfoldable pub verdict : Bool → Text → json.Value
  verdict valid error = json_object json (
      (str "valid", json.value (bool valid))
      ∷ (str "error", string_value json error)
      ∷ (str "details", json_object json [])
      ∷ [])

  abbrev pub report : Bool → Text → Result ⊥ Text
  report valid error = ok (json.to_string (verdict valid error))

  unfoldable pub verify_vc : chrono.Time → Text → Result ⊥ Text
  verify_vc now vc_json = elim (json.from_str vc_json) [
    | inl e ↦ report false (str "Invalid JSON: " ++ e)
    | inr vc ↦ elim (internal_verify_vc now vc) [
      | ok _ ↦ report true []
      | err e ↦ report false e
      | panic ↦ panic
    ]
  ]

  -- The signature of a payload by the key of these bytes, in hex.
  unfoldable pub sign_hex : Bytes → Bytes → Text
  sign_hex key_bytes payload_bytes =
      hex.encode
        (ed25519.signature_to_bytes (ed25519.sign (ed25519.signing_key key_bytes) payload_bytes))

  -- A private key of 32 bytes, from base 58.
  unfoldable pub private_key : Text → Result Text Bytes
  private_key key_b58 = do
    key_bytes ← map_err (λ _. str "Invalid base58 private key") (returned (bs58.decode key_b58))
    guard (length key_bytes == 32) (str "Invalid private key length")
    ok key_bytes

  unfoldable pub vc_proof : Text → Text → json.Value
  vc_proof did sig_hex = json_object json (
      (str "type", string_value json (str "Ed25519Signature2018"))
      ∷ (str "verificationMethod", string_value json (did ++ str "#keys-1"))
      ∷ (str "proofValue", string_value json sig_hex)
      ∷ [])

  unfoldable pub issue_vc : Text → Text → Text → Result Text Text
  issue_vc credential_json did key_b58 = do
    vc ← map_err (λ _. str "Invalid credential JSON") (returned (json.from_str credential_json))
    credential ← ok_or (str "Credential is not an object") (json.as_object vc)
    let vc' = json.value (object (json.insert credential (str "issuer") (string_value json did)))
    key_bytes ← private_key key_b58
    payload_bytes ← map_err (λ _. str "Failed to serialize payload") (returned (json.to_vec vc'))
    let sig_hex = sign_hex key_bytes payload_bytes
    issued ← ok_or (str "VC is not an object") (json.as_object vc')
    let signed = json.insert issued (str "proof") (vc_proof did sig_hex)
    ok (json.to_string (json.value (object signed)))
