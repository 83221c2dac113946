-- ===== src/Presentation.antt =====
-- src/lib.rs: `verify_vp` and `issue_vp`.
pub mod Issue
pub mod Issuable
pub mod Errors
pub mod Accepts
pub mod Verdict
pub mod Shape
use did_rust.Prelude.{
  ℕ, suc, Text, str, text_eq, Bytes, true, false, List, [], ◌∷◌, ◌++◌, Option, none, some, Result,
  ok, err, panic, ok_or, returned, map_err, ◌>>=◌, inl, inr, if◌then◌else◌,
}
use did_rust.Services.{Services}
use did_rust.Signature.{internal_verify_signature}
use did_rust.Credential.{
  get_str, get_object, map_get_str, payload_value, internal_verify_vc, report, private_key,
  sign_hex,
}
use did_rust.Crates.Json.{Json, array, object, string_value, json_object}

module _ (J : Json) where
  -- The match on `verifiableCredential`: an array, or one object.
  unfoldable pub credentials : Option J.Value → Option (List J.Value)
  credentials none = none
  credentials (some v) = elim (J.variant v) [
    | array vcs ↦ some vcs
    | object m ↦ some (v ∷ [])
    | _ ↦ none
  ]

module _ (S : Services) where
  open S use {primitives, json, chrono}

  -- The error that the presentation reports for that of one of its credentials.
  unfoldable pub credential_error : Text → Text
  credential_error e =
      if text_eq e (str "VC Signature Failure") then e else str "VC Verification Failure: " ++ e

  -- The loop over the credentials; the clock is read again for each.
  unfoldable pub verify_credentials :
      (ℕ → chrono.Time) → ℕ → List json.Value → Result Text (Unit {0})
  verify_credentials clock i [] = ok tt
  verify_credentials clock i (vc ∷ vcs) =
      let rest = verify_credentials clock (suc i) vcs in
      elim (internal_verify_vc S (clock i) vc) [
        | ok _ ↦ rest
        | err e ↦ err (credential_error e)
        | panic ↦ panic
      ]

  -- `is_err()` of the signature check: a panic goes on.
  unfoldable pub check_signature : Bytes → Text → Text → Result Text (Unit {0})
  check_signature payload_bytes sig_hex holder_did =
      map_err (λ _. str "VP Signature Failure")
        (internal_verify_signature S payload_bytes sig_hex holder_did)

  -- The body of `verify_vp` behind the parse. Each early return is an error with its message.
  unfoldable pub internal_verify_vp : (ℕ → chrono.Time) → json.Value → Result Text (Unit {0})
  internal_verify_vp clock vp_value = do
    proof ← ok_or (str "VP is missing proof") (get_object S vp_value (str "proof"))
    holder_did ← ok_or (str "VP is missing holder DID") (get_str S vp_value (str "holder"))
    sig_hex ← ok_or (str "VP proof missing proofValue") (map_get_str S proof (str "proofValue"))
    payload_bytes ←
        map_err (λ _. str "Failed to serialize VP payload")
          (returned (json.to_vec (payload_value S vp_value)))
    checked ← check_signature payload_bytes sig_hex holder_did
    vcs ←
        ok_or (str "VP is missing verifiableCredential")
          (credentials json (json.value_get vp_value (str "verifiableCredential")))
    verify_credentials clock 0 vcs

  unfoldable pub verify_vp : (ℕ → chrono.Time) → Text → Result ⊥ Text
  verify_vp clock vp_json = elim (json.from_str vp_json) [
    | inl e ↦ report S false (str "Invalid JSON")
    | inr vp_value ↦ elim (internal_verify_vp clock vp_value) [
      | ok _ ↦ report S true []
      | err e ↦ report S false e
      | panic ↦ panic
    ]
  ]

  abbrev pub text_array : Text → json.Value
  text_array t = json.value (array (string_value json t ∷ []))

  -- The presentation before it is signed.
  unfoldable pub unsigned_vp : json.Value → Text → Text → json.Value
  unsigned_vp vc holder_did challenge = json_object json (
      (str "@context", text_array (str "https://www.w3.org/2018/credentials/v1"))
      ∷ (str "type", text_array (str "VerifiablePresentation"))
      ∷ (str "holder", string_value json holder_did)
      ∷ (str "challenge", string_value json challenge)
      ∷ (str "verifiableCredential", json.value (array (vc ∷ [])))
      ∷ [])

  unfoldable pub vp_proof : Text → Text → Text → json.Value
  vp_proof holder_did sig_hex challenge = json_object json (
      (str "type", string_value json (str "Ed25519Signature2018"))
      ∷ (str "verificationMethod", string_value json (holder_did ++ str "#keys-1"))
      ∷ (str "proofValue", string_value json sig_hex)
      ∷ (str "challenge", string_value json challenge)
      ∷ [])

  unfoldable pub issue_vp : Text → Text → Text → Text → Result Text Text
  issue_vp vc_json holder_did challenge key_b58 = do
    vc ← map_err (λ _. str "Invalid VC JSON") (returned (json.from_str vc_json))
    let vp = unsigned_vp vc holder_did challenge
    key_bytes ← private_key S key_b58
    payload_bytes ← map_err (λ _. str "Failed to serialize VP payload") (returned (json.to_vec vp))
    let sig_hex = sign_hex S key_bytes payload_bytes
    issued ← ok_or (str "VP is not an object") (json.as_object vp)
    let signed = json.insert issued (str "proof") (vp_proof holder_did sig_hex challenge)
    ok (json.to_string (json.value (object signed)))
