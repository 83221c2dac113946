-- ===== src/Did/Presents.antt =====
-- A credential issued with what was generated, presented by another who generated an identifier.
use did_rust.Prelude.{Text, str, Bytes, ℕ, true, false, [], none, some, inr, ok, ◌≡◌}
use did_rust.Crates.Json.{object}
use did_rust.Services.{Services, IsLawful}
use did_rust.Credential.{map_get_str, issue_vc, report}
use did_rust.Credential.Issue.{unsigned, issued-IsAuthentic}
use did_rust.Credential.Accepts.{IsAuthentic}
use did_rust.Presentation.{issue_vp, verify_vp}
use did_rust.Presentation.Issue as Vp
use did_rust.Presentation.Issue.{verify_vp-issue_vp}
use did_rust.Did.{web_domain, key_reply, generate_did}
use did_rust.Did.Issues.{
  generated, generated_key, certified, generated-HasKey, generated-is_utf8, decode-generated_key,
  verify_vc-generate_did,
}

module _ (S : Services) (issuer holder : S.primitives.ed25519.SigningKey) (L : IsLawful S) where
  open S use {primitives, json, chrono}
  open primitives use {ed25519}

  -- The presentation of the credential that was issued.
  abbrev pub presented : json.Map → Bytes → Text → Bytes → json.Value
  presented credential payload challenge vp_payload =
      Vp.issued_document S (certified S issuer credential payload) (generated S holder) challenge
        (ed25519.signing_key_to_bytes holder) vp_payload

  pub certified-IsAuthentic :
      (credential_json : Text) (vc : json.Value) (credential : json.Map) (payload : Bytes)
      (now : chrono.Time)
      → json.from_str credential_json ≡ inr vc
      → json.as_object vc ≡ some credential
      → json.to_vec (json.value (object (unsigned S credential (generated S issuer)))) ≡ inr payload
      → json.get credential (str "proof") ≡ none
      → ((exp : Text) (t : chrono.Time)
          → map_get_str S credential (str "expirationDate") ≡ some exp
          → chrono.parse_from_rfc3339 exp ≡ some t
          → chrono.is_after now t ≡ false)
      → IsAuthentic S now (certified S issuer credential payload)
  certified-IsAuthentic credential_json vc credential payload now parsed is_object serialized absent
        not_expired =
      let array = L.primitives.ed25519.signing_key_to_bytes-IsArray issuer in
      issued-IsAuthentic S L credential_json (generated S issuer) (generated_key S issuer) vc
        credential (ed25519.signing_key_to_bytes issuer) payload parsed is_object
        (decode-generated_key S issuer L) array.size serialized absent
        (generated-is_utf8 S issuer L) (generated-HasKey S issuer L) now not_expired

  -- Let a method begin with neither `web:` nor `did:web:`; let a credential parse to an object
  -- with no proof, whose date of expiry, if it has one that can be read, is not before the first
  -- reading of the clock; let the credential with the issuer's identifier and the presentation
  -- with the holder's serialize, and the two documents that are issued parse back from their
  -- prints. If the packages are lawful, then `generate_did` replies to the issuer and to the
  -- holder with an identifier and a private key each, `issue_vc` issues the credential with
  -- those of the issuer, `issue_vp` presents what was issued with those of the holder, and
  -- `verify_vp` reports the presentation as valid.
  pub verify_vp-generate_did :
      (method credential_json challenge : Text) (vc : json.Value) (credential : json.Map)
      (payload vp_payload : Bytes) (clock : ℕ → chrono.Time)
      → web_domain method ≡ none
      → json.from_str credential_json ≡ inr vc
      → json.as_object vc ≡ some credential
      → json.to_vec (json.value (object (unsigned S credential (generated S issuer)))) ≡ inr payload
      → json.get credential (str "proof") ≡ none
      → ((exp : Text) (t : chrono.Time)
          → map_get_str S credential (str "expirationDate") ≡ some exp
          → chrono.parse_from_rfc3339 exp ≡ some t
          → chrono.is_after (clock 0) t ≡ false)
      → json.from_str (json.to_string (certified S issuer credential payload))
        ≡ inr (certified S issuer credential payload)
      → json.to_vec (
          json.value (
            object (
              Vp.unsigned S
                (certified S issuer credential payload)
                (generated S holder)
                challenge)))
        ≡ inr vp_payload
      → json.from_str (json.to_string (presented credential payload challenge vp_payload))
        ≡ inr (presented credential payload challenge vp_payload)
      → (generate_did S issuer method
          ≡ ok (
              json.to_string (
                key_reply S
                  (generated_key S issuer)
                  (ed25519.verifying_key_as_bytes (ed25519.verifying_key issuer)))))
        × (issue_vc S credential_json (generated S issuer) (generated_key S issuer)
            ≡ ok (json.to_string (certified S issuer credential payload)))
        × (generate_did S holder method
            ≡ ok (
                json.to_string (
                  key_reply S
                    (generated_key S holder)
                    (ed25519.verifying_key_as_bytes (ed25519.verifying_key holder)))))
        × (issue_vp S
              (json.to_string (certified S issuer credential payload))
              (generated S holder)
              challenge
              (generated_key S holder)
            ≡ ok (json.to_string (presented credential payload challenge vp_payload)))
        × (verify_vp S clock (json.to_string (presented credential payload challenge vp_payload))
            ≡ report S true [])
  unfolding generate_did
  verify_vp-generate_did method credential_json challenge vc credential payload vp_payload clock
        method_key parsed is_object serialized absent not_expired printed vp_serialized vp_printed =
      let array = L.primitives.ed25519.signing_key_to_bytes-IsArray holder in
      let authentic =
        certified-IsAuthentic credential_json vc credential payload (clock 0) parsed is_object
          serialized absent not_expired in
      let (generates, issues, _) =
        verify_vc-generate_did S issuer L method credential_json vc credential payload (clock 0)
          method_key parsed is_object serialized absent not_expired printed in
      let (presents, verifies) =
        verify_vp-issue_vp S L (json.to_string (certified S issuer credential payload))
          (generated S holder) challenge (generated_key S holder)
          (certified S issuer credential payload) (ed25519.signing_key_to_bytes holder) vp_payload
          printed (decode-generated_key S holder L) array.size vp_serialized
          (generated-is_utf8 S holder L) (generated-HasKey S holder L) clock authentic vp_printed in
      (generates, issues, rw (method_key, generate_did), presents, verifies)
