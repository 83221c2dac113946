-- ===== src/Credential/Reissue.antt =====
-- `issue_vc` on a credential that has a proof already.
use did_rust.Prelude.{
  Text, str, Bytes, length, inr, ok, none, some, ◌≡◌, ◌≢◌, ◌∙◌, ap, sym, text_eq_refl, arith,
}
use did_rust.Crates.Json.{object, string_value}
use did_rust.Crates.Json.Fields.{as_object-object, get-insert_ne}
use did_rust.Services.{Services, IsLawful}
use did_rust.Credential.{payload_value, issue_vc}
use did_rust.Credential.Issue.{unsigned, issued, issued_document, issue_vc_lem, keys_differ}

module _ (S : Services) (L : IsLawful S) where
  open S use {primitives, json}
  open primitives use {bs58}

  payload_value-ne :
      (credential : json.Map) (old_proof : json.Value) (did : Text) (key_bytes payload : Bytes)
      → json.get credential (str "proof") ≡ some old_proof
      → payload_value S (json.value (object (issued S credential did key_bytes payload)))
        ≢ json.value (object (unsigned S credential did))
  unfolding payload_value
  payload_value-ne credential old_proof did key_bytes payload has e =
      let signed = unsigned S credential did in
      let m = issued S credential did key_bytes payload in
      let same =
        sym (as_object-object json L.json (json.remove m (str "proof")))
        ∙ ap json.as_object (
            ap
              (λ o.
                json.value
                  (object (json.remove (elim o [ none ↦ json.new | some n ↦ n ]) (str "proof"))))
              (sym (as_object-object json L.json m))
            ∙ e)
        ∙ as_object-object json L.json signed in
      ground (
        arith,
        same,
        has,
        L.json.get-remove m (str "proof") (str "proof"),
        text_eq_refl (str "proof"),
        get-insert_ne json L.json credential (str "issuer") (str "proof") (string_value json did)
            keys_differ.0,
      )

  -- Let a credential parse to an object with a proof, the key decode from base 58 to 32 bytes,
  -- and the credential with its issuer, the old proof still in it, serialize to `payload`. If
  -- the packages are lawful, then `issue_vc` issues the document with the signature of
  -- `payload`, but the document whose signature `verify_vc` checks on it, which has no proof, is
  -- not the one that was signed.
  pub payload_value-ne-unsigned :
      (credential_json did key_b58 : Text) (vc old_proof : json.Value) (credential : json.Map)
      (key_bytes payload : Bytes)
      → json.from_str credential_json ≡ inr vc
      → json.as_object vc ≡ some credential
      → bs58.decode key_b58 ≡ inr key_bytes
      → length key_bytes ≡ 32
      → json.to_vec (json.value (object (unsigned S credential did))) ≡ inr payload
      → json.get credential (str "proof") ≡ some old_proof
      → (issue_vc S credential_json did key_b58
          ≡ ok (json.to_string (issued_document S credential did key_bytes payload)))
        × (payload_value S (issued_document S credential did key_bytes payload)
            ≢ json.value (object (unsigned S credential did)))
  payload_value-ne-unsigned credential_json did key_b58 vc old_proof credential key_bytes payload
        parsed is_object key size serialized has =
      (
        issue_vc_lem S L credential_json did key_b58 vc credential key_bytes payload parsed
            is_object key size serialized,
        payload_value-ne credential old_proof did key_bytes payload has,
      )
