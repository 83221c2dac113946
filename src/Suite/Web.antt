-- ===== src/Suite/Web.antt =====
-- src/lib.rs: the test that generates an identifier of the method `web`.
use did_rust.Prelude.{
  Text, str, text_eq, text_eq_refl, strip_prefix, has_nul, Bytes, Bool, true, false, [], ◌∷◌, ◌++◌,
  none, some, inr, ok, not, ap, ◌≡◌, refl,
}
use did_rust.Prelude.Utf8.{is_utf8}
use did_rust.Crates.Json.{array, string_value, json_object}
use did_rust.Crates.Json.Fields.{as_object-json_object}
use did_rust.Crates.Json.Tree.{IsReadBack, fields, items, nil, cons, text, member, end}
use did_rust.Services.{Services, IsLawful}
use did_rust.Credential.{get_str}
use did_rust.Credential.Verdict.{value_get-json_object}
use did_rust.Resolver.Key.{multikey-IsBytes}
use did_rust.Did.{web_domain, web_document, web_reply, ed25519_multibase, generate_did}
use did_rust.Did.Issues.{generated_key}
use did_rust.Ffi.{generate_did_ffi}
use did_rust.Ffi.EndToEnd.{generate_did_ffi-text, generated_key-is_utf8}
use did_rust.Ffi.Strings.{c_string-to_string}
use did_rust.Credential.Verdict.{get_str-json_object}
use did_rust.Ffi.Memory.{Memory, Allocator, IsAllocator}
use did_rust.Suite.Program.{
  Program, ◌>>=◌, ◌>>◌, assert, call, is_live, c_str, c_string_new, free, from_str, str_at, index,
  index_first,
}
use did_rust.Suite.Steps.{
  ◌⨾◌, step, assert_lem, c_string_new_lem, from_str_lem, str_at_lem, index_lem, index_first_lem,
  free_under,
}
use did_rust.Suite.Sessions.{call_live}
use did_rust.Suite.Generated.{generated_key_not_empty}

module _ (S : Services) (A : Allocator) (sk : S.primitives.ed25519.SigningKey) where
  open S use {json, primitives}
  open primitives use {bs58, ed25519}

  abbrev is_object : json.Value → Bool
  is_object v = elim (json.as_object v) [ none ↦ false | some m ↦ true ]

  unfoldable pub test_generate_did_web : Program (Unit {0})
  test_generate_did_web = do
    method ← c_string_new (str "web:example.com")
    ptr ← call A (generate_did_ffi S sk (some method))
    assert (is_live ptr)
    result ← c_str ptr
    parsed ← from_str S result
    did ← str_at S parsed (str "did")
    assert (text_eq did (str "did:web:example.com"))
    private_key ← str_at S parsed (str "private_key_base58")
    assert (not (text_eq private_key []))
    document ← index S parsed (str "did_document")
    assert (is_object document)
    methods ← index S document (str "verificationMethod")
    first_method ← index_first S methods
    controller ← str_at S first_method (str "controller")
    assert (text_eq controller (str "did:web:example.com"))
    free ptr

  module _ (L : IsLawful S) (R : IsReadBack json) (I : IsAllocator A) where
    abbrev key : Bytes
    key = ed25519.verifying_key_as_bytes (ed25519.verifying_key sk)

    abbrev domain : Text
    domain = str "example.com"

    abbrev reply : json.Value
    reply = web_reply S domain (generated_key S sk) key

    abbrev method_value : json.Value
    method_value = json_object json (
        (str "id", string_value json ((str "did:web:" ++ domain) ++ str "#keys-1"))
        ∷ (str "type", string_value json (str "Ed25519VerificationKey2018"))
        ∷ (str "controller", string_value json (str "did:web:" ++ domain))
        ∷ (str "publicKeyBase58", string_value json (bs58.encode key))
        ∷ (str "publicKeyMultibase", string_value json (ed25519_multibase S key))
        ∷ [])

    web_no_nul : has_nul (str "web:example.com") ≡ false
    unfolding str
    web_no_nul = refl

    replies :
        generate_did_ffi S sk (some (str "web:example.com")) ≡ ok (some (json.to_string reply))
    unfolding generate_did str is_utf8 web_domain strip_prefix text_eq
    replies = rw (
      generate_did_ffi-text S sk L (str "web:example.com") refl,
      c_string-to_string json L.json reply,
    )

    key_text : is_utf8 (bs58.encode key) ≡ true
    key_text =
        L.primitives.bs58.encode-is_utf8 _
          (L.primitives.ed25519.verifying_key_as_bytes-IsArray _).bytes

    multibase_text : is_utf8 (ed25519_multibase S key) ≡ true
    unfolding ed25519_multibase str is_utf8
    multibase_text =
        let array =
          L.primitives.ed25519.verifying_key_as_bytes-IsArray (ed25519.verifying_key sk) in
        L.primitives.bs58.encode-is_utf8 _ (multikey-IsBytes key array)

    reads : json.from_str (json.to_string reply) ≡ inr reply
    unfolding web_reply web_document json_object str is_utf8
    reads =
        R.from_str-to_string
          (fields (
            member (str "did") (text (str "did:web:" ++ domain)) (
              member (str "private_key_base58") (text (generated_key S sk)) (
                member (str "did_document")
                  (fields (
                    member (str "id") (text (str "did:web:" ++ domain)) (
                      member (str "verificationMethod")
                        (items (
                          cons
                            (fields (
                              member (str "id") (text ((str "did:web:" ++ domain) ++ str "#keys-1"))
                                (member (str "type") (text (str "Ed25519VerificationKey2018")) (
                                  member (str "controller") (text (str "did:web:" ++ domain)) (
                                    member (str "publicKeyBase58") (text (bs58.encode key)) (
                                      member (str "publicKeyMultibase")
                                        (text (ed25519_multibase S key)) end))))))
                            nil))
                        end)))
                  end))))
          (
            refl,
            refl,
            (
              refl,
              generated_key-is_utf8 S sk L,
              (
                refl,
                (
                  refl,
                  refl,
                  (
                    refl,
                    (
                      (
                        refl,
                        refl,
                        (refl, refl, (refl, refl, (refl, key_text, (refl, multibase_text, tt)))),
                      ),
                      tt,
                    ),
                    tt,
                  ),
                ),
                tt,
              ),
            ),
          )

    did_read : get_str S reply (str "did") ≡ some (str "did:web:example.com")
    unfolding web_reply str text_eq is_utf8
    did_read = get_str-json_object S L.json _ (str "did") _ refl refl

    key_read : get_str S reply (str "private_key_base58") ≡ some (generated_key S sk)
    unfolding web_reply str text_eq
    key_read =
        get_str-json_object S L.json _ (str "private_key_base58") _ refl
          (generated_key-is_utf8 S sk L)

    document_read : json.value_get reply (str "did_document") ≡ some (web_document S domain key)
    unfolding web_reply str text_eq
    document_read = value_get-json_object S L.json _ (str "did_document")

    document_is_object : is_object (web_document S domain key) ≡ true
    unfolding web_document
    document_is_object =
        ap (λ o. elim o [ none ↦ false | some m ↦ true ]) (as_object-json_object json L.json _)

    methods_read :
        json.value_get (web_document S domain key) (str "verificationMethod")
        ≡ some (json.value (array (method_value ∷ [])))
    unfolding web_document str text_eq
    methods_read = value_get-json_object S L.json _ (str "verificationMethod")

    controller_read : get_str S method_value (str "controller") ≡ some (str "did:web:example.com")
    unfolding str text_eq is_utf8
    controller_read = get_str-json_object S L.json _ (str "controller") _ refl refl

    pub test_generate_did_web_lem : (m : Memory) → test_generate_did_web m ≡ some (tt, m)
    unfolding test_generate_did_web
    test_generate_did_web_lem m =
        step _ _ (c_string_new_lem _ web_no_nul)
        ⨾ call_live S A L R I m _ _ reply replies
        ⨾ step _ _ (from_str_lem S _ reply reads)
        ⨾ step _ _ (str_at_lem S reply (str "did") _ did_read)
        ⨾ step _ _ (assert_lem (text_eq_refl _))
        ⨾ step _ _ (str_at_lem S reply (str "private_key_base58") _ key_read)
        ⨾ step _ _ (assert_lem (ap not (generated_key_not_empty S L sk)))
        ⨾ step _ _ (index_lem S reply (str "did_document") _ document_read)
        ⨾ step _ _ (assert_lem document_is_object)
        ⨾ step _ _ (index_lem S _ (str "verificationMethod") _ methods_read)
        ⨾ step _ _ (index_first_lem S L.json method_value [])
        ⨾ step _ _ (str_at_lem S method_value (str "controller") _ controller_read)
        ⨾ step _ _ (assert_lem (text_eq_refl _))
        ⨾ free_under [] m (A.fresh m) _ (I.fresh-ne-null m) tt
