-- ===== src/Tests/Suites.antt =====
-- The unit tests over concrete packages and keys.
use did_rust.Prelude.{
  ℕ, Text, text_eq, length, ltb, none, inr, ok, arith, str, true, false, [], ◌∷◌, some, inl, ◌≡◌,
  refl,
}
use did_rust.Crates.Json.Tree.{
  build, Members, member, end, text, truth, items, cons, nil, MembersAreWritable,
}
use did_rust.Services.{Services}
use did_rust.Suite.Generated.{generated_reply}
use did_rust.Ffi.Written.{credential, credential_json, certificate, verify_vc_ffi-issue_vc_ffi}
use did_rust.Ffi.{issue_vc_ffi, verify_vc_ffi}
use did_rust.Credential.{map_get_str, verdict}
use did_rust.Prelude.Utf8.{is_utf8}
use did_rust.Suite.Generating.{test_generate_did_key_explicit}
use did_rust.Suite.Web.{test_generate_did_web}
use did_rust.Suite.Verifying.{test_verify_vc_invalid_json}
use did_rust.Suite.Expired.{test_verify_expired_vc}
use did_rust.Suite.Stable.{test_preserve_order_stable_signature}
use did_rust.Suite.Resolving.{
  test_resolver_did_key_resolve, test_build_did_web_urls, test_build_did_web_url_well_known,
  test_build_did_web_url_path, test_build_did_web_url_invalid,
}
use did_rust.Suite.Rejects.{
  test_dependent_ffi_rejects_bad_input, test_ffi_derive_identity_rejects_bad_input,
}
use did_rust.Suite.Fetching.{mock_doc, test_fetch_did_document_mock_http}
use did_rust.Suite.Passes.{tests_pass}
use did_rust.Suite.Lifecycle.{test_generate_and_verify_vc, test_generate_and_verify_vc_lem}
use did_rust.Suite.Presenting.{membership_credential, test_verify_vp, test_verify_vp_lem}
use did_rust.Ffi.Memory.{Memory}
use did_rust.Did.Issues.{generated, generated_key}
use did_rust.Tests.Fixture.Values.{tree}
use did_rust.Tests.Fixture.Parses.{tree-IsReadBack}
use did_rust.Tests.Fixture.World.{world_of, world_of-IsLawful, world_of-IsDocuments}
use did_rust.Tests.Memory.{bump, bump-IsAllocator}

-- The packages, with the body that the test's server sends as every page.
abbrev page : Text
page = tree.to_string (build tree mock_doc)

abbrev served : Services
served = world_of page

refused : tree.from_str (str "not valid json") ≡ inl (str "not a document")
unfolding str
refused = refl

dated : served.chrono.parse_from_rfc3339 (str "2020-01-01T00:00:00Z") ≡ some 20
unfolding str
dated = refl

tests_pass_example :
    (test_generate_did_key_explicit served bump true [] ≡ some (tt, []))
    × (test_generate_did_web served bump true [] ≡ some (tt, []))
    × (test_verify_vc_invalid_json served bump 21 [] ≡ some (tt, []))
    × (test_verify_expired_vc served bump true 21 [] ≡ some (tt, []))
    × (test_preserve_order_stable_signature served bump true []
        ≡ some
            (tt, (1, tree.to_string (generated_reply served (world_of-IsLawful page) true)) ∷ []))
    × (test_resolver_did_key_resolve served true [] ≡ some (tt, []))
    × (test_build_did_web_urls [] ≡ some (tt, []))
    × (test_build_did_web_url_well_known [] ≡ some (tt, []))
    × (test_build_did_web_url_path [] ≡ some (tt, []))
    × (test_build_did_web_url_invalid [] ≡ some (tt, []))
    × (test_fetch_did_document_mock_http served (str "http://127.0.0.1:80") [] ≡ some (tt, []))
    × (test_dependent_ffi_rejects_bad_input served bump [] ≡ some (tt, []))
    × (test_ffi_derive_identity_rejects_bad_input served bump [] ≡ some (tt, []))
tests_pass_example =
    tests_pass served bump true 21 (world_of-IsLawful page) tree-IsReadBack
      (world_of-IsDocuments page) bump-IsAllocator [] (str "not a document") 20
      (str "http://127.0.0.1:80") tt page refused dated refl refl refl refl refl

test_generate_and_verify_vc_lem_example :
    test_generate_and_verify_vc served bump true 21 [] ≡ some (tt, [])
test_generate_and_verify_vc_lem_example =
    test_generate_and_verify_vc_lem served bump true 21 (world_of-IsLawful page) tree-IsReadBack
      (world_of-IsDocuments page) bump-IsAllocator []

-- The strings that the test of presentations does not free.
abbrev kept : Memory
kept =
    (
      3,
      tree.to_string (
          certificate served (world_of-IsLawful page) tree-IsReadBack true
            (membership_credential (generated served false))),
    )
    ∷ (2, tree.to_string (generated_reply served (world_of-IsLawful page) false))
    ∷ (1, tree.to_string (generated_reply served (world_of-IsLawful page) true))
    ∷ []

test_verify_vp_lem_example : test_verify_vp served bump true false (λ i. i) [] ≡ some (tt, kept)
test_verify_vp_lem_example =
    test_verify_vp_lem served bump true false (λ i. i) (world_of-IsLawful page) tree-IsReadBack
      bump-IsAllocator []

-- A credential that expires, with a list.
abbrev skills : Members
skills =
    member (str "expirationDate") (text (str "2030"))
      (member (str "skills") (items (cons (text (str "rust")) (cons (truth true) nil))) end)

skills_AreWritable : MembersAreWritable 126 skills
unfolding str is_utf8
skills_AreWritable = (refl, refl, (refl, (refl, (tt, tt)), tt))

no_proof :
    tree.get (credential served (world_of-IsLawful page) tree-IsReadBack true skills) (str "proof")
    ≡ none
unfolding str text_eq
no_proof = refl

not_expired :
    (exp : Text) (t : ℕ)
    → map_get_str served
        (credential served (world_of-IsLawful page) tree-IsReadBack true skills)
        (str "expirationDate")
      ≡ some exp
    → some (length exp) ≡ some t
    → ltb t 3 ≡ false
unfolding text_eq str is_utf8
not_expired exp t e h = ground arith

verify_vc_ffi-issue_vc_ffi_example :
    (issue_vc_ffi served
        (some (credential_json served (world_of-IsLawful page) tree-IsReadBack true skills))
        (some (generated served true))
        (some (generated_key served true))
      ≡ ok (
          some (
            tree.to_string
              (certificate served (world_of-IsLawful page) tree-IsReadBack true skills))))
    × (tree.from_str
          (tree.to_string (certificate served (world_of-IsLawful page) tree-IsReadBack true skills))
        ≡ inr (certificate served (world_of-IsLawful page) tree-IsReadBack true skills))
    × (verify_vc_ffi served 3 (
          some (
            tree.to_string
              (certificate served (world_of-IsLawful page) tree-IsReadBack true skills)))
        ≡ ok (some (tree.to_string (verdict served true []))))
verify_vc_ffi-issue_vc_ffi_example =
    verify_vc_ffi-issue_vc_ffi served (world_of-IsLawful page) tree-IsReadBack true skills
      skills_AreWritable 3 no_proof not_expired
