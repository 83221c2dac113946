-- ===== src/Suite/Resolving.antt =====
-- src/lib.rs and src/resolver.rs: the tests of the resolver.
use did_rust.Prelude.{
  str, text_eq, text_eq_refl, Bytes, length, Bool, true, false, some, ok, err, Result, ◌==◌, ◌≡◌,
  refl, strip_prefix,
}
use did_rust.Crates.Json.Tree.{IsReadBack}
use did_rust.Services.{Services, IsLawful, network, resolve}
use did_rust.Resolver.{key_document, build_did_web_url}
use did_rust.Resolver.Key.{resolve-multikey}
use did_rust.Did.{web_domain, ed25519_multibase, generate_did}
use did_rust.Did.Issues.{generated}
use did_rust.Ffi.Memory.{Memory}
use did_rust.Suite.Program.{Program, ◌>>=◌, ◌>>◌, unwrap_ok, assert, from_str, str_at, first}
use did_rust.Suite.Steps.{◌⨾◌, step, unwrap_ok_lem, first_lem, assert_lem, from_str_lem, str_at_lem}
use did_rust.Suite.Generated.{generated_reply, generated_reply-reads, get_str-did}

unfoldable pub is_err {ℓ ℓ1} : {E : Type ℓ} {A : Type ℓ1} → Result E A → Bool
is_err (err e) = true
is_err _ = false

unfoldable pub test_build_did_web_urls : Program (Unit {0})
test_build_did_web_urls = do
  well_known ← unwrap_ok (build_did_web_url (str "did:web:example.com"))
  assert (text_eq well_known (str "https://example.com/.well-known/did.json"))
  path ← unwrap_ok (build_did_web_url (str "did:web:example:user:alice"))
  assert (text_eq path (str "https://example/user/alice/did.json"))
  assert (is_err (build_did_web_url (str "did:key:zabc")))

unfoldable pub test_build_did_web_url_well_known : Program (Unit {0})
test_build_did_web_url_well_known = do
  url ← unwrap_ok (build_did_web_url (str "did:web:example.com"))
  assert (text_eq url (str "https://example.com/.well-known/did.json"))

unfoldable pub test_build_did_web_url_path : Program (Unit {0})
test_build_did_web_url_path = do
  url ← unwrap_ok (build_did_web_url (str "did:web:example:user:alice"))
  assert (text_eq url (str "https://example/user/alice/did.json"))

unfoldable pub test_build_did_web_url_invalid : Program (Unit {0})
test_build_did_web_url_invalid = assert (is_err (build_did_web_url (str "did:key:zabc")))

module _ (S : Services) where
  open S use {json, http, primitives}

  unfoldable pub test_resolver_did_key_resolve : primitives.ed25519.SigningKey → Program (Unit {0})
  test_resolver_did_key_resolve sk = do
    did_str ← unwrap_ok (generate_did S sk (str "key"))
    parsed ← from_str S did_str
    did ← str_at S parsed (str "did")
    doc ← unwrap_ok (resolve S did)
    assert (text_eq doc.id did)
    assert (length doc.verification_method == 1)
    method ← first doc.verification_method
    assert (text_eq method.controller did)

  module _ (L : IsLawful S) (R : IsReadBack json) where
    module _ (sk : primitives.ed25519.SigningKey) where
      generates : generate_did S sk (str "key") ≡ ok (json.to_string (generated_reply S L sk))
      unfolding generate_did str web_domain strip_prefix
      generates = refl

      abbrev key : Bytes
      key = primitives.ed25519.verifying_key_as_bytes (primitives.ed25519.verifying_key sk)

      resolves :
          resolve S (generated S sk)
          ≡ ok
              (key_document (generated S sk) (ed25519_multibase S key) (primitives.bs58.encode key))
      unfolding ed25519_multibase str
      resolves =
          resolve-multikey (network S) L.primitives.bs58 key
            (L.primitives.ed25519.verifying_key_as_bytes-IsArray _)

      pub test_resolver_did_key_resolve_lem :
          (m : Memory) → test_resolver_did_key_resolve sk m ≡ some (tt, m)
      unfolding test_resolver_did_key_resolve key_document
      test_resolver_did_key_resolve_lem m =
          let reply = generated_reply S L sk in
          step _ _ (unwrap_ok_lem generates)
          ⨾ step _ _ (from_str_lem S _ reply (generated_reply-reads S L sk R))
          ⨾ step _ _ (str_at_lem S reply (str "did") _ (get_str-did S L sk))
          ⨾ step _ _ (unwrap_ok_lem resolves)
          ⨾ step _ _ (assert_lem (text_eq_refl _))
          ⨾ step _ _ (assert_lem refl)
          ⨾ step _ _ (first_lem _ _)
          ⨾ assert_lem (text_eq_refl _)
