-- ===== src/Credential/Issuable.antt =====
-- Exactly when `issue_vc` issues.
use did_rust.Prelude.{
  Text, str, Bytes, length, some, ◌⊎◌, inl, inr, Result-cases, ok, err, ok_or, returned, map_err,
  >>=-eq-ok, ◌≡◌, arith,
}
use did_rust.Crates.Json.{object}
use did_rust.Services.{Services, IsLawful}
use did_rust.Safety.{issue_vc-ne-panic}
use did_rust.Credential.{private_key, issue_vc}
use did_rust.Credential.Issue.{unsigned, issued_document, issue_vc_lem}

module _ (S : Services) where
  open S use {primitives, json}
  open primitives use {bs58}

  -- The credential is an object, the key is 32 bytes in base 58, and what is to be signed
  -- serializes.
  pub record IsIssuable (credential_json did key_b58 : Text) : Type 0 where
    pub vc : json.Value
    pub parsed : json.from_str credential_json ≡ inr vc
    pub credential : json.Map
    pub is_object : json.as_object vc ≡ some credential
    pub key_bytes : Bytes
    pub key : bs58.decode key_b58 ≡ inr key_bytes
    pub key_size : length key_bytes ≡ 32
    pub payload : Bytes
    pub serialized : json.to_vec (json.value (object (unsigned S credential did))) ≡ inr payload

  -- The document that is issued.
  abbrev pub certificate :
      {credential_json did key_b58 : Text} → IsIssuable credential_json did key_b58 → json.Value
  certificate {did = did} i = issued_document S i.credential did i.key_bytes i.payload

  pub private_key-eq-ok :
      (key_b58 : Text) (key_bytes : Bytes)
      → private_key S key_b58 ≡ ok key_bytes
      → (bs58.decode key_b58 ≡ inr key_bytes) × (length key_bytes ≡ 32)
  unfolding private_key
  private_key-eq-ok key_b58 key_bytes h =
      let (b, e, f) =
        >>=-eq-ok (map_err (λ _. str "Invalid base58 private key") (returned (bs58.decode key_b58)))
          _ h in
      (ground arith, ground arith)

  module _ (L : IsLawful S) (credential_json did key_b58 : Text) where
    issue_vc-certificate :
        (i : IsIssuable credential_json did key_b58)
        → issue_vc S credential_json did key_b58 ≡ ok (json.to_string (certificate i))
    issue_vc-certificate i =
        issue_vc_lem S L credential_json did key_b58 i.vc i.credential i.key_bytes i.payload
          i.parsed i.is_object i.key i.key_size i.serialized

    issue_vc-IsIssuable :
        (t : Text)
        → issue_vc S credential_json did key_b58 ≡ ok t
        → IsIssuable credential_json did key_b58
    unfolding issue_vc
    issue_vc-IsIssuable t h =
        let (vc, e, f) = >>=-eq-ok (map_err _ (returned (json.from_str credential_json))) _ h in
        let (credential, e1, f1) =
          >>=-eq-ok (ok_or (str "Credential is not an object") (json.as_object vc)) _ f in
        let (key_bytes, e2, f2) = >>=-eq-ok (private_key S key_b58) _ f1 in
        let (payload, e3, f3) = >>=-eq-ok (map_err _ (returned (json.to_vec _))) _ f2 in
        let (key, key_size) = private_key-eq-ok key_b58 key_bytes e2 in
        record {
          vc = vc;
          parsed = ground arith;
          credential = credential;
          is_object = ground arith;
          key_bytes = key_bytes;
          key = key;
          key_size = key_size;
          payload = payload;
          serialized = ground arith;
        }

    -- Either the document is issued, or there is an error and none can be issued.
    pub issue_vc-cases :
        ((i : IsIssuable credential_json did key_b58) × (issue_vc S credential_json did key_b58
            ≡ ok (json.to_string (certificate i))))
        ⊎ ((e : Text) × (¬ IsIssuable credential_json did key_b58)
            × (issue_vc S credential_json did key_b58 ≡ err e))
    issue_vc-cases = elim (Result-cases (issue_vc S credential_json did key_b58)) [
      | inl (t, e) ↦ let i = issue_vc-IsIssuable t e in inl (i, issue_vc-certificate i)
      | inr (inl (e, failed)) ↦ inr (e, (λ i. let h = issue_vc-certificate i in cc), failed)
      | inr (inr e) ↦ absurd (issue_vc-ne-panic S credential_json did key_b58 e)
    ]
