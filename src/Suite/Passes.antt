-- ===== src/Suite/Passes.antt =====
-- src/lib.rs and src/resolver.rs: the unit tests but the two of whole sessions, and two of
-- the tests in tests/.
use did_rust.Prelude.{Text, str, text_eq, strip_prefix, ◌∷◌, true, some, inl, inr, ◌≡◌, refl}
use did_rust.Crates.Json.Tree.{IsReadBack, build}
use did_rust.Services.{Services, IsLawful, IsDocuments}
use did_rust.Resolver.{build_did_web_url, web_url, split, join}
use did_rust.Ffi.Memory.{Memory, Allocator, IsAllocator}
use did_rust.Suite.Program.{◌>>=◌, assert, unwrap_ok}
use did_rust.Suite.Generated.{generated_reply}
use did_rust.Suite.Generating.{test_generate_did_key_explicit, test_generate_did_key_explicit_lem}
use did_rust.Suite.Web.{test_generate_did_web, test_generate_did_web_lem}
use did_rust.Suite.Verifying.{test_verify_vc_invalid_json, test_verify_vc_invalid_json_lem}
use did_rust.Suite.Expired.{test_verify_expired_vc, test_verify_expired_vc_lem}
use did_rust.Suite.Stable.{
  test_preserve_order_stable_signature, test_preserve_order_stable_signature_lem,
}
use did_rust.Suite.Resolving.{
  is_err, test_resolver_did_key_resolve, test_resolver_did_key_resolve_lem, test_build_did_web_urls,
  test_build_did_web_url_well_known, test_build_did_web_url_path, test_build_did_web_url_invalid,
}
use did_rust.Suite.Rejects.{
  test_dependent_ffi_rejects_bad_input, test_dependent_ffi_rejects_bad_input_lem,
  test_ffi_derive_identity_rejects_bad_input, test_ffi_derive_identity_rejects_bad_input_lem,
}
use did_rust.Suite.Fetching.{
  mock_doc, test_fetch_did_document_mock_http, test_fetch_did_document_mock_http_lem,
}

module _ (m : Memory) where
  urls : test_build_did_web_urls m ≡ some (tt, m)
  unfolding test_build_did_web_urls ◌>>=◌ unwrap_ok assert build_did_web_url web_url split join str
      text_eq strip_prefix is_err
  urls = refl

  well_known : test_build_did_web_url_well_known m ≡ some (tt, m)
  unfolding test_build_did_web_url_well_known ◌>>=◌ unwrap_ok assert build_did_web_url web_url split
      join str text_eq strip_prefix
  well_known = refl

  path : test_build_did_web_url_path m ≡ some (tt, m)
  unfolding test_build_did_web_url_path ◌>>=◌ unwrap_ok assert build_did_web_url web_url split join
      str text_eq strip_prefix
  path = refl

  invalid : test_build_did_web_url_invalid m ≡ some (tt, m)
  unfolding test_build_did_web_url_invalid assert build_did_web_url str strip_prefix is_err
  invalid = refl

module _ (S : Services) (A : Allocator) (sk : S.primitives.ed25519.SigningKey) (now : S.chrono.Time)
    (L : IsLawful S) (R : IsReadBack S.json) (D : IsDocuments S) (I : IsAllocator A) where
  open S use {json, chrono, http}

  -- Let the packages be lawful, serde_json read back what it printed, documents be serialized as
  -- their attributes say, and the allocator be lawful; let serde_json refuse `not valid json`,
  -- the date 2020-01-01 be read as one that has passed, let the HTTP client be built, and the
  -- server at `url` send it the print of `mock_doc` with success. Then whatever key is drawn and
  -- whatever the memory, the tests of `generate_did_ffi` for both methods, of a text that is not
  -- JSON, of an expired credential, of a credential that is issued twice, of the resolver, of
  -- the URLs, of the fetch, and of the two calls that derive keys on a null pointer and on a
  -- seed of the wrong length run to their end, and leave the memory as it was but for the one
  -- string that the test of the credential issued twice does not free.
  pub tests_pass :
      (m : Memory) (e : Text) (t : chrono.Time) (url : Text) (client : http.Client)
      (response : http.Response)
      → json.from_str (str "not valid json") ≡ inl e
      → chrono.parse_from_rfc3339 (str "2020-01-01T00:00:00Z") ≡ some t
      → chrono.is_after now t ≡ true
      → http.client ≡ some client
      → http.send client url ≡ inr response
      → http.is_success response ≡ true
      → http.body response ≡ json.to_string (build json mock_doc)
      → (test_generate_did_key_explicit S A sk m ≡ some (tt, m))
        × (test_generate_did_web S A sk m ≡ some (tt, m))
        × (test_verify_vc_invalid_json S A now m ≡ some (tt, m))
        × (test_verify_expired_vc S A sk now m ≡ some (tt, m))
        × (test_preserve_order_stable_signature S A sk m
            ≡ some (tt, (A.fresh m, json.to_string (generated_reply S L sk)) ∷ m))
        × (test_resolver_did_key_resolve S sk m ≡ some (tt, m))
        × (test_build_did_web_urls m ≡ some (tt, m))
        × (test_build_did_web_url_well_known m ≡ some (tt, m))
        × (test_build_did_web_url_path m ≡ some (tt, m))
        × (test_build_did_web_url_invalid m ≡ some (tt, m))
        × (test_fetch_did_document_mock_http S url m ≡ some (tt, m))
        × (test_dependent_ffi_rejects_bad_input S A m ≡ some (tt, m))
        × (test_ffi_derive_identity_rejects_bad_input S A m ≡ some (tt, m))
  tests_pass m e t url client response failed parsed passed built sent success body = (
    test_generate_did_key_explicit_lem S A sk L R I m,
    test_generate_did_web_lem S A sk L R I m,
    test_verify_vc_invalid_json_lem S A now L R I m e failed,
    test_verify_expired_vc_lem S A sk now L R I m t parsed passed,
    test_preserve_order_stable_signature_lem S A sk L R I m,
    test_resolver_did_key_resolve_lem S L R sk m,
    urls m,
    well_known m,
    path m,
    invalid m,
    test_fetch_did_document_mock_http_lem S L R D url client response built sent success body m,
    test_dependent_ffi_rejects_bad_input_lem S A L R I m,
    test_ffi_derive_identity_rejects_bad_input_lem S A L R I m,
  )
