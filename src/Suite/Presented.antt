-- ===== src/Suite/Presented.antt =====
-- The presentation that a unit test writes, and signs itself, of a credential that was issued.
use did_rust.Prelude.{
  ℕ, Text, str, text_eq, List, true, [], ◌∷◌, ◌++◌, some, inr, ok, ◌≡◌, ◌∙◌, refl, ap, subst,
}
use did_rust.Prelude.Utf8.{is_utf8, is_utf8-append}
use did_rust.Crates.Json.{array, string_value, json_object}
use did_rust.Crates.Json.Fields.{object_map, get-object_map, get-insert_self}
use did_rust.Crates.Json.Tree.{
  IsReadBack, fields, items, nil, cons, text, Members, member, end, MembersAreWritable,
}
use did_rust.Services.{Services, IsLawful}
use did_rust.Signature.Signs.{SignedBy-sign}
use did_rust.Credential.{vc_proof, sign_hex, verdict}
use did_rust.Credential.Accepts.{IsAuthentic}
use did_rust.Credential.Fields.{get_object-object, map_get_str-insert_self, payload_value-insert}
use did_rust.Credential.Issue.{vc_proof_map}
use did_rust.Credential.Verdict.{value_get-json_object}
use did_rust.Did.Issues.{generated, generated-is_utf8, generated-HasKey}
use did_rust.Presentation.{credentials, text_array, verify_vp}
use did_rust.Presentation.Accepts.{IsAuthenticVp, credentials-Holds, internal_verify_vp_iff}
use did_rust.Ffi.{verify_vp_ffi}
use did_rust.Ffi.Strings.{c_string-to_string}
use did_rust.Credential.Verdict.{get_str-json_object}
use did_rust.Ffi.Written.{
  certificate, certificate_members, certificate-IsWritten, certificate_AreWritable,
}

module _ (S : Services) where
  open S use {primitives, json}

  -- The fields of the presentation, and of the one that is signed.
  abbrev pub vp_fields : json.Value → Text → List (Text × json.Value)
  vp_fields vc holder_did =
      (str "@context", text_array S (str "https://www.w3.org/2018/credentials/v1"))
      ∷ (str "type", text_array S (str "VerifiablePresentation"))
      ∷ (str "holder", string_value json holder_did)
      ∷ (str "verifiableCredential", json.value (array (vc ∷ [])))
      ∷ []

  abbrev pub signed_fields : json.Value → Text → Text → List (Text × json.Value)
  signed_fields vc holder_did sig_hex =
      vp_fields vc holder_did ++ ((str "proof", vc_proof S holder_did sig_hex) ∷ [])

module _ (S : Services) (L : IsLawful S) (R : IsReadBack S.json)
    (issuer holder : S.primitives.ed25519.SigningKey) (ms : Members) where
  open S use {primitives, json, chrono}
  open primitives use {ed25519}

  abbrev pub vc : json.Value
  vc = certificate S L R issuer ms

  abbrev pub unsigned : json.Value
  unsigned = json_object json (vp_fields S vc (generated S holder))

  abbrev pub sig : Text
  sig = sign_hex S (ed25519.signing_key_to_bytes holder) (json.to_string unsigned)

  abbrev pub presentation : json.Value
  presentation = json_object json (signed_fields S vc (generated S holder) sig)

  sig_text : is_utf8 sig ≡ true
  unfolding sign_hex
  sig_text =
      L.primitives.hex.encode-is_utf8 _ (L.primitives.ed25519.signature_to_bytes-IsArray _).bytes

  presentation-reads :
      MembersAreWritable 124 ms → json.from_str (json.to_string presentation) ≡ inr presentation
  unfolding json_object vc_proof str is_utf8
  presentation-reads w =
      let did = generated-is_utf8 S holder L in
      subst
        (λ v.
          let p = json_object json (signed_fields S v (generated S holder) sig) in
          json.from_str (json.to_string p) ≡ inr p)
        (certificate-IsWritten S L R issuer ms)
        (R.from_str-to_string
          (fields (
            member (str "@context")
              (items (cons (text (str "https://www.w3.org/2018/credentials/v1")) nil))
              (member (str "type") (items (cons (text (str "VerifiablePresentation")) nil)) (
                member (str "holder") (text (generated S holder)) (
                  member (str "verifiableCredential")
                    (items (cons (fields (certificate_members S L R issuer ms)) nil))
                    (member (str "proof")
                      (fields (
                        member (str "type") (text (str "Ed25519Signature2018")) (
                          member (str "verificationMethod")
                            (text (generated S holder ++ str "#keys-1"))
                            (member (str "proofValue") (text sig) end))))
                      end))))))
          (
            refl,
            (refl, tt),
            (
              refl,
              (refl, tt),
              (
                refl,
                did,
                (
                  refl,
                  (certificate_AreWritable S L R issuer ms 123 w, tt),
                  (
                    refl,
                    (
                      refl,
                      refl,
                      (
                        refl,
                        is_utf8-append (generated S holder) (str "#keys-1") did refl,
                        (refl, sig_text, tt),
                      ),
                    ),
                    tt,
                  ),
                ),
              ),
            ),
          ))

  listed : credentials json (some (json.value (array (vc ∷ [])))) ≡ some (vc ∷ [])
  unfolding credentials
  listed = rw (L.json.variant-value (array (vc ∷ [])) tt, credentials)

  presentation-IsAuthenticVp :
      (clock : ℕ → chrono.Time) → IsAuthentic S (clock 0) vc → IsAuthenticVp S clock presentation
  unfolding json_object vc_proof str text_eq is_utf8 sign_hex
  presentation-IsAuthenticVp clock authentic =
      let did = generated S holder in
      let key = ed25519.signing_key_to_bytes holder in
      let m = object_map json L.json (vp_fields S vc did) in
      let held = credentials-Holds json _ (vc ∷ []) (
        ap (credentials json)
          (value_get-json_object S L.json (signed_fields S vc did sig) (str "verifiableCredential"))
        ∙ listed) in
      record {
        proof = vc_proof_map S did sig;
        has_proof = get_object-object S L _ _ (str "proof") (get-insert_self json L.json m _ _);
        holder = did;
        has_holder =
            get_str-json_object S L.json (signed_fields S vc did sig) (str "holder") did refl
              (generated-is_utf8 S holder L);
        sig_hex = sig;
        has_sig = map_get_str-insert_self S L _ (str "proofValue") sig sig_text;
        payload = json.to_string unsigned;
        serialized =
            ap json.to_vec (
              payload_value-insert S L m (vc_proof S did sig)
                (get-object_map json L.json (vp_fields S vc did) (str "proof")))
            ∙ R.to_vec_lem unsigned;
        signed = SignedBy-sign S L (ed25519.signing_key key) _ did (generated-HasKey S holder L);
        vcs = vc ∷ [];
        field = held.0;
        has_vcs = held.1;
        holds = held.2;
        authentic = (authentic, tt);
      }

  pub verify_vp_ffi-presentation :
      (clock : ℕ → chrono.Time)
      → MembersAreWritable 124 ms
      → IsAuthentic S (clock 0) vc
      → verify_vp_ffi S clock (some (json.to_string presentation))
        ≡ ok (some (json.to_string (verdict S true [])))
  unfolding verify_vp_ffi verify_vp
  verify_vp_ffi-presentation clock w authentic = rw (
    R.to_string-is_utf8 presentation,
    verify_vp_ffi,
    presentation-reads w,
    verify_vp,
    (internal_verify_vp_iff S clock presentation).1 (presentation-IsAuthenticVp clock authentic),
    c_string-to_string json L.json (verdict S true []),
  )
