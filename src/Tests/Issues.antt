-- ===== src/Tests/Issues.antt =====
-- A credential issued with what was generated, at a concrete key.
use did_rust.Prelude
use did_rust.Prelude.{
  Text, str, text_eq, Bytes, length, true, false, [], ◌∷◌, none, some, inr, ok, ◌⊎◌, ◌≡◌, refl,
  arith,
}
use mathlib.Core.Bool
use did_rust.Prelude.Utf8.{is_utf8}
use did_rust.Crates.Json.{json_object}
use did_rust.Credential
use did_rust.Credential.{issue_vc, verify_vc, report, vc_proof, sign_hex, verdict}
use did_rust.Credential.Issue.{unsigned}
use did_rust.Did.{web_domain, ed25519_multibase, key_reply, generate_did}
use did_rust.Ffi.{generate_did_ffi, issue_vc_ffi, verify_vc_ffi}
use did_rust.Credential.Issuable.{certificate}
use did_rust.Ffi.Issue.{HoldsIssuable, issue_vc_ffi-cases}
use did_rust.Ffi.EndToEnd.{verify_vc_ffi-generate_did_ffi}
use did_rust.Presentation.{vp_proof, issue_vp, verify_vp}
use did_rust.Presentation.Issue as VpIssue
use did_rust.Did.Presents.{presented, verify_vp-generate_did}
use did_rust.Did.Issues.{generated, generated_key, certified}
use did_rust.Tests.Fixture.Keys.{two_keys}
use did_rust.Tests.Fixture.Values.{Value, text, truth, obj, Fields, end, field, tree}
use did_rust.Tests.Fixture.World.{world, world-IsLawful}

abbrev credential : Fields
credential = field (str "name") (truth true) (field (str "expirationDate") (text (str "2030")) end)

abbrev credential_json : Text
credential_json = tree.to_string (obj credential)

abbrev payload : Bytes
payload = tree.to_string (obj (unsigned world credential (generated world true)))

abbrev doc : Value
doc = certified world true credential payload

key_method : web_domain (str "key") ≡ none
unfolding web_domain str Prelude.strip_prefix
key_method = refl

credential_parsed : tree.from_str credential_json ≡ inr (obj credential)
unfolding str
credential_parsed = refl

absent : tree.get credential (str "proof") ≡ none
unfolding text_eq str
absent = refl

doc_printed : tree.from_str (tree.to_string doc) ≡ inr doc
unfolding text_eq str vc_proof json_object sign_hex ed25519_multibase Bool.xor
doc_printed = refl

not_expired :
    (exp : Text) (t : Prelude.ℕ)
    → Credential.map_get_str world credential (str "expirationDate") ≡ some exp
    → some (length exp) ≡ some t
    → Prelude.ltb t 3 ≡ false
unfolding text_eq str is_utf8
not_expired exp t e h = ground arith

credential_json-is_utf8 : is_utf8 credential_json ≡ true
unfolding is_utf8 str
credential_json-is_utf8 = refl

doc-is_utf8 : is_utf8 (tree.to_string doc) ≡ true
unfolding is_utf8 text_eq str vc_proof json_object sign_hex ed25519_multibase Bool.xor
doc-is_utf8 = refl

key-is_utf8 : is_utf8 (str "key") ≡ true
unfolding is_utf8 str
key-is_utf8 = refl

verify_vc_ffi-generate_did_ffi_example :
    (generate_did_ffi world true (some (str "key"))
      ≡ ok (
          some (
            tree.to_string
              (key_reply world (generated_key world true) (two_keys.verifying_key_as_bytes true)))))
    × (issue_vc_ffi world
          (some credential_json)
          (some (generated world true))
          (some (generated_key world true))
        ≡ ok (some (tree.to_string doc)))
    × (verify_vc_ffi world 3 (some (tree.to_string doc))
        ≡ ok (some (tree.to_string (verdict world true []))))
verify_vc_ffi-generate_did_ffi_example =
    verify_vc_ffi-generate_did_ffi world true world-IsLawful (str "key") credential_json
      (obj credential) credential payload 3 key_method credential_parsed refl refl absent
      not_expired doc_printed key-is_utf8 credential_json-is_utf8 doc-is_utf8

issue_vc_ffi-cases_example :
    ((h : HoldsIssuable world
        (some credential_json)
        (some (generated world true))
        (some (generated_key world true)))
      × (issue_vc_ffi world
            (some credential_json)
            (some (generated world true))
            (some (generated_key world true))
          ≡ ok (some (tree.to_string (certificate world h.issuable)))))
    ⊎ ((¬ HoldsIssuable world
          (some credential_json)
          (some (generated world true))
          (some (generated_key world true)))
        × (issue_vc_ffi world
              (some credential_json)
              (some (generated world true))
              (some (generated_key world true))
            ≡ ok none))
issue_vc_ffi-cases_example =
    issue_vc_ffi-cases world world-IsLawful (some credential_json) (some (generated world true))
      (some (generated_key world true))

abbrev challenge : Text
challenge = 49 ∷ []

abbrev vp_payload : Bytes
vp_payload = tree.to_string (obj (VpIssue.unsigned world doc (generated world false) challenge))

abbrev vp : Value
vp = presented world true false world-IsLawful credential payload challenge vp_payload

vp_printed : tree.from_str (tree.to_string vp) ≡ inr vp
unfolding text_eq str vc_proof vp_proof json_object sign_hex ed25519_multibase Bool.xor
vp_printed = refl

not_expired_at_0 :
    (exp : Text) (t : Prelude.ℕ)
    → Credential.map_get_str world credential (str "expirationDate") ≡ some exp
    → some (length exp) ≡ some t
    → Prelude.ltb t 0 ≡ false
unfolding text_eq str is_utf8
not_expired_at_0 exp t e h = ground arith

verify_vp-generate_did_example :
    (generate_did world true (str "key")
      ≡ ok (
          tree.to_string
            (key_reply world (generated_key world true) (two_keys.verifying_key_as_bytes true))))
    × (issue_vc world credential_json (generated world true) (generated_key world true)
        ≡ ok (tree.to_string doc))
    × (generate_did world false (str "key")
        ≡ ok (
            tree.to_string (
              key_reply world (generated_key world false) (two_keys.verifying_key_as_bytes false))))
    × (issue_vp world
          (tree.to_string doc)
          (generated world false)
          challenge
          (generated_key world false)
        ≡ ok (tree.to_string vp))
    × (verify_vp world (λ i. i) (tree.to_string vp) ≡ report world true [])
verify_vp-generate_did_example =
    verify_vp-generate_did world true false world-IsLawful (str "key") credential_json challenge
      (obj credential) credential payload vp_payload (λ i. i) key_method credential_parsed refl refl
      absent not_expired_at_0 doc_printed refl vp_printed
