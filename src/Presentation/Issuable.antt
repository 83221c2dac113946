-- ===== src/Presentation/Issuable.antt =====
-- Exactly when `issue_vp` issues.
use did_rust.Prelude.{
  Text, Bytes, length, ◌⊎◌, inl, inr, Result-cases, ok, err, returned, map_err, >>=-eq-ok, panic,
  ◌≡◌, ◌≢◌, arith,
}
use did_rust.Crates.Json.{object}
use did_rust.Services.{Services, IsLawful}
use did_rust.Credential.{private_key}
use did_rust.Credential.Issuable.{private_key-eq-ok}
use did_rust.Presentation.{unsigned_vp, issue_vp}
use did_rust.Presentation.Issue.{unsigned, unsigned_vp-object, issued_document, issue_vp_lem}

module _ (S : Services) where
  open S use {primitives, json}
  open primitives use {bs58}

  -- The credential is JSON, the key is 32 bytes in base 58, and what is to be signed serializes.
  pub record IsIssuable (vc_json holder_did challenge key_b58 : Text) : Type 0 where
    pub vc : json.Value
    pub parsed : json.from_str vc_json ≡ inr vc
    pub key_bytes : Bytes
    pub key : bs58.decode key_b58 ≡ inr key_bytes
    pub key_size : length key_bytes ≡ 32
    pub payload : Bytes
    pub serialized :
        json.to_vec (json.value (object (unsigned S vc holder_did challenge))) ≡ inr payload

  -- The document that is issued.
  abbrev pub certificate :
      {vc_json holder_did challenge key_b58 : Text}
      → IsIssuable vc_json holder_did challenge key_b58
      → json.Value
  certificate {holder_did = holder_did} {challenge = challenge} i =
      issued_document S i.vc holder_did challenge i.key_bytes i.payload

  pub issue_vp-ne-panic :
      (t holder challenge key : Text) → issue_vp S t holder challenge key ≢ panic
  unfolding issue_vp private_key
  issue_vp-ne-panic t holder challenge key = ground arith

  module _ (L : IsLawful S) (vc_json holder_did challenge key_b58 : Text) where
    issue_vp-certificate :
        (i : IsIssuable vc_json holder_did challenge key_b58)
        → issue_vp S vc_json holder_did challenge key_b58 ≡ ok (json.to_string (certificate i))
    issue_vp-certificate i =
        issue_vp_lem S L vc_json holder_did challenge key_b58 i.vc i.key_bytes i.payload i.parsed
          i.key i.key_size i.serialized

    issue_vp-IsIssuable :
        (t : Text)
        → issue_vp S vc_json holder_did challenge key_b58 ≡ ok t
        → IsIssuable vc_json holder_did challenge key_b58
    unfolding issue_vp
    issue_vp-IsIssuable t h =
        let (vc, e, f) = >>=-eq-ok (map_err _ (returned (json.from_str vc_json))) _ h in
        let (key_bytes, e1, f1) = >>=-eq-ok (private_key S key_b58) _ f in
        let (payload, e2, f2) =
          >>=-eq-ok (map_err _ (returned (json.to_vec (unsigned_vp S vc holder_did challenge)))) _
            f1 in
        let (key, key_size) = private_key-eq-ok S key_b58 key_bytes e1 in
        let same = unsigned_vp-object S vc holder_did challenge in
        record {
          vc = vc;
          parsed = ground arith;
          key_bytes = key_bytes;
          key = key;
          key_size = key_size;
          payload = payload;
          serialized = ground arith;
        }

    -- Either the presentation is issued, or there is an error and none can be issued.
    pub issue_vp-cases :
        ((i : IsIssuable vc_json holder_did challenge key_b58) × (issue_vp S vc_json holder_did
              challenge key_b58
            ≡ ok (json.to_string (certificate i))))
        ⊎ ((e : Text) × (¬ IsIssuable vc_json holder_did challenge key_b58)
            × (issue_vp S vc_json holder_did challenge key_b58 ≡ err e))
    issue_vp-cases = elim (Result-cases (issue_vp S vc_json holder_did challenge key_b58)) [
      | inl (t, e) ↦ let i = issue_vp-IsIssuable t e in inl (i, issue_vp-certificate i)
      | inr (inl (e, failed)) ↦ inr (e, (λ i. let h = issue_vp-certificate i in cc), failed)
      | inr (inr e) ↦ absurd (issue_vp-ne-panic vc_json holder_did challenge key_b58 e)
    ]
