-- ===== src/Tests/Documents.antt =====
-- Credentials and presentations: runs, and the theorems at them.
use mathlib.Core.Bool
use did_rust.Prelude
use did_rust.Prelude.{
  ℕ, Text, str, text_eq, Bytes, length, true, false, [], ◌∷◌, ◌++◌, none, some, inl, inr, ◌⊎◌, ok,
  err, ◌≡◌, ◌≢◌, ◌↔◌, refl, arith,
}
use did_rust.Prelude.Utf8.{is_utf8}
use did_rust.Crates.Json.{json_object}
use did_rust.Crypto.{key_did}
use did_rust.Signature.{internal_verify_signature}
use did_rust.Signature.Accepts.{SignedBy, internal_verify_signature_iff}
use did_rust.Signature.Signs.{HasKey-key_did}
use did_rust.Credential.{
  issue_vc, verify_vc, report, internal_verify_vc, vc_proof, sign_hex, payload_value, is_expired,
  verdict, private_key,
}
use did_rust.Credential
use did_rust.Credential.Issue.{verify_vc-issue_vc, issued-IsAuthentic, unsigned, issued}
use did_rust.Credential.Accepts.{IsAuthentic, internal_verify_vc_iff}
use did_rust.Credential.Verdict.{SaysVc, verify_vc-cases}
use did_rust.Credential.Reissue.{payload_value-ne-unsigned}
use did_rust.Presentation.{issue_vp, verify_vp, internal_verify_vp, vp_proof}
use did_rust.Presentation.Issue as VpIssue
use did_rust.Presentation.Issue.{verify_vp-issue_vp}
use did_rust.Presentation.Accepts.{IsAuthenticVp, internal_verify_vp_iff}
use did_rust.Presentation.Verdict.{SaysVp, verify_vp-cases}
use did_rust.Tests.Fixture.Values.{Value, text, truth, obj, Fields, end, field, tree, tree-IsJson}
use did_rust.Tests.Fixture.Keys.{two_keys}
use did_rust.Tests.Fixture.Codecs.{hexadecimal}
use did_rust.Tests.Fixture.World.{small, world, world-IsLawful, world-HasClient}

abbrev key_bytes : Bytes
key_bytes = two_keys.signing_key_to_bytes true

abbrev key_b58 : Text
key_b58 = hexadecimal.encode key_bytes

abbrev did : Text
did = key_did small key_bytes

abbrev credential : Fields
credential = field (str "name") (truth true) (field (str "expirationDate") (text (str "2030")) end)

abbrev credential_json : Text
credential_json = tree.to_string (obj credential)

abbrev payload : Bytes
payload = tree.to_string (obj (unsigned world credential did))

abbrev doc : Value
doc = obj (issued world credential did key_bytes payload)

did_text : is_utf8 did ≡ true
unfolding key_did is_utf8 str
did_text = refl

credential_parsed : tree.from_str credential_json ≡ inr (obj credential)
unfolding str
credential_parsed = refl

absent : tree.get credential (str "proof") ≡ none
unfolding text_eq str
absent = refl

doc_printed : tree.from_str (tree.to_string doc) ≡ inr doc
unfolding text_eq str vc_proof json_object sign_hex key_did Bool.xor
doc_printed = refl

not_expired :
    (exp : Text) (t : ℕ)
    → Credential.map_get_str world credential (str "expirationDate") ≡ some exp
    → Prelude.some (length exp) ≡ some t
    → Prelude.ltb t 3 ≡ false
unfolding text_eq str is_utf8
not_expired exp t e h = ground arith

verify_vc-issue_vc_example :
    (issue_vc world credential_json did key_b58 ≡ ok (tree.to_string doc))
    × (verify_vc world 3 (tree.to_string doc) ≡ report world true [])
verify_vc-issue_vc_example =
    verify_vc-issue_vc world world-IsLawful credential_json did key_b58 (obj credential) credential
      key_bytes payload credential_parsed refl refl refl refl absent did_text
      (HasKey-key_did world world-IsLawful key_bytes) 3 not_expired doc_printed

-- After its date the credential is refused.
expired : verify_vc world 5 (tree.to_string doc) ≡ report world false (str "VC is expired")
unfolding verify_vc internal_verify_vc is_expired text_eq str vc_proof json_object sign_hex key_did
    is_utf8 Bool.xor
expired = refl

internal_verify_vc_iff_example : (internal_verify_vc world 5 doc ≡ ok tt) ↔ IsAuthentic world 5 doc
internal_verify_vc_iff_example = internal_verify_vc_iff world 5 doc

internal_verify_signature_iff_example :
    (internal_verify_signature world payload key_b58 did ≡ ok tt)
    ↔ SignedBy world payload key_b58 did
internal_verify_signature_iff_example = internal_verify_signature_iff world payload key_b58 did

verify_vc-cases_example :
    ((e : Text) × (tree.from_str (tree.to_string doc) ≡ inl e)
      × SaysVc world 3 (tree.to_string doc) false (str "Invalid JSON: " ++ e))
    ⊎ ((vc : Value) × (tree.from_str (tree.to_string doc) ≡ inr vc)
        × IsAuthentic world 3 vc
        × SaysVc world 3 (tree.to_string doc) true [])
    ⊎ ((vc : Value) × (e : Text) × (tree.from_str (tree.to_string doc) ≡ inr vc)
        × (¬ IsAuthentic world 3 vc)
        × (e ≢ [])
        × SaysVc world 3 (tree.to_string doc) false e)
verify_vc-cases_example = verify_vc-cases world tree-IsJson world-HasClient 3 (tree.to_string doc)

-- A credential that has a proof, and what is issued from it.
abbrev proved : Fields
proved = field (str "proof") (truth true) end

proved_has : tree.get proved (str "proof") ≡ some (truth true)
unfolding text_eq str
proved_has = refl

abbrev proved_payload : Bytes
proved_payload = tree.to_string (obj (unsigned world proved did))

proved_parsed : tree.from_str (tree.to_string (obj proved)) ≡ inr (obj proved)
unfolding str
proved_parsed = refl

payload_value-ne-unsigned_example :
    (issue_vc world (tree.to_string (obj proved)) did key_b58
      ≡ ok (tree.to_string (obj (issued world proved did key_bytes proved_payload))))
    × (payload_value world (obj (issued world proved did key_bytes proved_payload))
        ≢ obj (unsigned world proved did))
payload_value-ne-unsigned_example =
    payload_value-ne-unsigned world world-IsLawful (tree.to_string (obj proved)) did key_b58
      (obj proved) (truth true) proved key_bytes proved_payload proved_parsed refl refl refl refl
      proved_has

-- The presentation of the credential.
abbrev challenge : Text
challenge = 49 ∷ []

abbrev vp_payload : Bytes
vp_payload = tree.to_string (obj (VpIssue.unsigned world doc did challenge))

abbrev vp : Value
vp = obj (VpIssue.issued world doc did challenge key_bytes vp_payload)

vp_printed : tree.from_str (tree.to_string vp) ≡ inr vp
unfolding text_eq str vc_proof vp_proof json_object sign_hex key_did Bool.xor
vp_printed = refl

doc-IsAuthentic : IsAuthentic world 3 doc
doc-IsAuthentic =
    issued-IsAuthentic world world-IsLawful credential_json did key_b58 (obj credential) credential
      key_bytes payload credential_parsed refl refl refl refl absent did_text
      (HasKey-key_did world world-IsLawful key_bytes) 3 not_expired

verify_vp-issue_vp_example :
    (issue_vp world (tree.to_string doc) did challenge key_b58 ≡ ok (tree.to_string vp))
    × (verify_vp world (λ i. 3) (tree.to_string vp) ≡ report world true [])
verify_vp-issue_vp_example =
    verify_vp-issue_vp world world-IsLawful (tree.to_string doc) did challenge key_b58 doc key_bytes
      vp_payload doc_printed refl refl refl did_text (HasKey-key_did world world-IsLawful key_bytes)
      (λ i. 3) doc-IsAuthentic vp_printed

internal_verify_vp_iff_example :
    (internal_verify_vp world (λ i. 9) vp ≡ ok tt) ↔ IsAuthenticVp world (λ i. 9) vp
internal_verify_vp_iff_example = internal_verify_vp_iff world (λ i. 9) vp

verify_vp-cases_example :
    ((e : Text) × (tree.from_str (tree.to_string vp) ≡ inl e)
      × SaysVp world (λ i. i) (tree.to_string vp) false (str "Invalid JSON"))
    ⊎ ((v : Value) × (tree.from_str (tree.to_string vp) ≡ inr v)
        × IsAuthenticVp world (λ i. i) v
        × SaysVp world (λ i. i) (tree.to_string vp) true [])
    ⊎ ((v : Value) × (e : Text) × (tree.from_str (tree.to_string vp) ≡ inr v)
        × (¬ IsAuthenticVp world (λ i. i) v)
        × (e ≢ [])
        × SaysVp world (λ i. i) (tree.to_string vp) false e)
verify_vp-cases_example =
    verify_vp-cases world tree-IsJson world-HasClient (λ i. i) (tree.to_string vp)
