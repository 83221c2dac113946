-- ===== src/Tests/Published.antt =====
-- A `did:web` whose document is served, documents read back, and the shape of a presentation.
use mathlib.Core.Bool
use did_rust.Prelude
use did_rust.Prelude.{
  Text, str, text_eq, Bytes, length, true, false, [], ◌∷◌, ◌++◌, none, some, inl, inr, ok, ◌≡◌,
  refl, arith, err, ◌⊎◌,
}
use did_rust.Prelude.Utf8.{is_utf8}
use did_rust.Crates.Json.{json_object, string_value}
use did_rust.Services.{resolve}
use did_rust.Document.{document_of_value, presentation_of_value}
use did_rust.Resolver.{DidDocument, did_web, build_did_web_url, web_url, split}
use did_rust.Credential
use did_rust.Credential.{issue_vc, verify_vc, report, vc_proof, sign_hex}
use did_rust.Credential.Issue.{unsigned}
use did_rust.Presentation.{issue_vp}
use did_rust.Presentation.Issue as VpIssue
use did_rust.Presentation.Issuable.{certificate}
use did_rust.Ffi.{issue_vp_ffi}
use did_rust.Ffi.Issue.{HoldsIssuableVp, issue_vp_ffi-cases}
use did_rust.Presentation.Shape.{issued_presentation, presentation_of_value-issue_vp}
use did_rust.Did.Replies.{IsWebMethod}
use did_rust.Did.{ed25519_multibase, web_document, web_reply, generate_did, resolve_did}
use did_rust.Did.WebDocument.{web_did_document}
use did_rust.Did.Web.{IsPublished, web_certified, verify_vc-generate_did_web}
use did_rust.Did.ReadBack.{ShowsDocument, document_of_value-resolve_did}
use did_rust.Tests.Fixture.Keys.{two_keys}
use did_rust.Tests.Fixture.Codecs.{hexadecimal}
use did_rust.Tests.Fixture.Values.{Value, text, truth, obj, Fields, end, field, tree}
use did_rust.Tests.Fixture.World.{
  world, world-IsLawful, world_of, world_of-IsLawful, world_of-IsDocuments,
}

abbrev domain : Text
domain = 101 ∷ 46 ∷ 99 ∷ []

domain_text : is_utf8 domain ≡ true
unfolding is_utf8
domain_text = refl

abbrev key : Bytes
key = two_keys.verifying_key_as_bytes true

abbrev secret : Bytes
secret = two_keys.signing_key_to_bytes true

abbrev page : Text
page = tree.to_string (web_document world domain key)

published :
    IsPublished (world_of page) (did_web ++ domain) (web_document (world_of page) domain key)
unfolding build_did_web_url web_url split str web_document json_object text_eq ed25519_multibase
    Prelude.strip_prefix
published = record {
  has_http = refl;
  url = str "https://" ++ (domain ++ str "/.well-known/did.json");
  built = refl;
  client = tt;
  has_client = refl;
  response = page;
  sent = refl;
  success = refl;
  body = refl;
  parsed = refl;
}

abbrev credential : Fields
credential = field (str "name") (truth true) (field (str "expirationDate") (text (str "2030")) end)

abbrev credential_json : Text
credential_json = tree.to_string (obj credential)

abbrev payload : Bytes
payload = tree.to_string (obj (unsigned (world_of page) credential (did_web ++ domain)))

abbrev doc : Value
doc =
    web_certified (world_of page) (world_of-IsLawful page) (world_of-IsDocuments page) true domain
      domain_text credential payload

web_method : IsWebMethod (str "web:" ++ domain) domain
web_method = inl refl

nonempty : text_eq domain [] ≡ false
unfolding text_eq
nonempty = refl

credential_parsed : tree.from_str credential_json ≡ inr (obj credential)
unfolding str
credential_parsed = refl

absent : tree.get credential (str "proof") ≡ none
unfolding text_eq str
absent = refl

doc_printed : tree.from_str (tree.to_string doc) ≡ inr doc
unfolding text_eq str vc_proof json_object sign_hex ed25519_multibase Bool.xor
doc_printed = refl

not_expired :
    (exp : Text) (t : Prelude.ℕ)
    → Credential.map_get_str world credential (str "expirationDate") ≡ some exp
    → some (length exp) ≡ some t
    → Prelude.ltb t 3 ≡ false
unfolding text_eq str is_utf8
not_expired exp t e h = ground arith

verify_vc-generate_did_web_example :
    (generate_did (world_of page) true (str "web:" ++ domain)
      ≡ ok (tree.to_string (web_reply (world_of page) domain (hexadecimal.encode secret) key)))
    × (resolve (world_of page) (did_web ++ domain)
        ≡ ok (web_did_document (world_of page) domain key))
    × (issue_vc (world_of page) credential_json (did_web ++ domain) (hexadecimal.encode secret)
        ≡ ok (tree.to_string doc))
    × (verify_vc (world_of page) 3 (tree.to_string doc) ≡ report (world_of page) true [])
verify_vc-generate_did_web_example =
    verify_vc-generate_did_web (world_of page) (world_of-IsLawful page) (world_of-IsDocuments page)
      true domain domain_text (str "web:" ++ domain) credential_json (obj credential) credential
      payload 3 web_method nonempty published credential_parsed refl refl absent not_expired
      doc_printed

did_text : is_utf8 (did_web ++ domain) ≡ true
unfolding is_utf8 str
did_text = refl

document_of_value-resolve_did_example :
    ((doc : DidDocument) × (v : Value) × (resolve (world_of page) (did_web ++ domain) ≡ ok doc)
      × (resolve_did (world_of page) (did_web ++ domain) ≡ ok (tree.to_string v))
      × ShowsDocument (world_of page) v doc
      × (document_of_value tree v ≡ ok doc))
    ⊎ ((e : Text) × (v : Value) × (resolve (world_of page) (did_web ++ domain) ≡ err e)
        × (resolve_did (world_of page) (did_web ++ domain) ≡ ok (tree.to_string v))
        × (tree.value_get v (str "error") ≡ some (string_value tree e)))
document_of_value-resolve_did_example =
    document_of_value-resolve_did (world_of page) (world_of-IsLawful page)
      (world_of-IsDocuments page) (λ on gone. cc gone) (did_web ++ domain) did_text

challenge_text : is_utf8 (49 ∷ []) ≡ true
unfolding is_utf8
challenge_text = refl

abbrev vp_payload : Bytes
vp_payload = tree.to_string (obj (VpIssue.unsigned world (truth true) domain (49 ∷ [])))

presentation_of_value-issue_vp_example :
    (issue_vp world (tree.to_string (truth true)) domain (49 ∷ []) (hexadecimal.encode secret)
      ≡ ok (
          tree.to_string
            (VpIssue.issued_document world (truth true) domain (49 ∷ []) secret vp_payload)))
    × (presentation_of_value tree
          (VpIssue.issued_document world (truth true) domain (49 ∷ []) secret vp_payload)
        ≡ ok (
            issued_presentation world world-IsLawful
              (truth true)
              domain
              (49 ∷ [])
              secret
              vp_payload))
presentation_of_value-issue_vp_example =
    presentation_of_value-issue_vp world world-IsLawful (truth true) domain (49 ∷ []) secret
      vp_payload (tree.to_string (truth true)) (hexadecimal.encode secret) refl refl refl refl
      domain_text challenge_text

abbrev vc_json : Text
vc_json = tree.to_string (truth true)

issue_vp_ffi-cases_example :
    ((h : HoldsIssuableVp world
        (some vc_json)
        (some domain)
        (some (49 ∷ []))
        (some (hexadecimal.encode secret)))
      × (issue_vp_ffi world
            (some vc_json)
            (some domain)
            (some (49 ∷ []))
            (some (hexadecimal.encode secret))
          ≡ ok (some (tree.to_string (certificate world h.issuable)))))
    ⊎ ((¬ HoldsIssuableVp world
          (some vc_json)
          (some domain)
          (some (49 ∷ []))
          (some (hexadecimal.encode secret)))
        × (issue_vp_ffi world
              (some vc_json)
              (some domain)
              (some (49 ∷ []))
              (some (hexadecimal.encode secret))
            ≡ ok none))
issue_vp_ffi-cases_example =
    issue_vp_ffi-cases world world-IsLawful (some vc_json) (some domain) (some (49 ∷ []))
      (some (hexadecimal.encode secret))
