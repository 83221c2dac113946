-- ===== src/Suite/Generating.antt =====
-- src/lib.rs: the tests of `generate_did_ffi`.
use did_rust.Prelude.{
  str, text_eq, starts_with, strip_prefix, starts_with-append, has_nul, false, [], some, ok, not,
  ap, ◌≡◌, refl,
}
use did_rust.Prelude.Utf8.{is_utf8}
use did_rust.Crates.Json.Tree.{IsReadBack}
use did_rust.Services.{Services, IsLawful}
use did_rust.Did.{web_domain, key_reply, generate_did}
use did_rust.Ffi.{generate_did_ffi}
use did_rust.Ffi.EndToEnd.{generate_did_ffi-text}
use did_rust.Ffi.Strings.{c_string-to_string}
use did_rust.Ffi.Memory.{Memory, Allocator, IsAllocator}
use did_rust.Suite.Program.{
  Program, ◌>>=◌, ◌>>◌, assert, call, is_live, c_str, c_string_new, free, from_str, str_at,
}
use did_rust.Suite.Steps.{
  ◌⨾◌, step, assert_lem, c_string_new_lem, from_str_lem, str_at_lem, free_under,
}
use did_rust.Suite.Sessions.{call_live}
use did_rust.Suite.Generated.{
  generated_reply, generated_reply-reads, get_str-did, get_str-private_key, generated_key_not_empty,
}

module _ (S : Services) (A : Allocator) (sk : S.primitives.ed25519.SigningKey) where
  open S use {json}

  unfoldable pub test_generate_did_key_explicit : Program (Unit {0})
  test_generate_did_key_explicit = do
    method ← c_string_new (str "key")
    ptr ← call A (generate_did_ffi S sk (some method))
    assert (is_live ptr)
    result ← c_str ptr
    parsed ← from_str S result
    did ← str_at S parsed (str "did")
    assert (starts_with did (str "did:key:"))
    private_key ← str_at S parsed (str "private_key_base58")
    assert (not (text_eq private_key []))
    free ptr

  module _ (L : IsLawful S) (R : IsReadBack json) (I : IsAllocator A) where
    key_no_nul : has_nul (str "key") ≡ false
    unfolding str
    key_no_nul = refl

    replies_to_key :
        generate_did_ffi S sk (some (str "key"))
        ≡ ok (some (json.to_string (generated_reply S L sk)))
    unfolding generate_did str is_utf8 web_domain strip_prefix key_reply
    replies_to_key = rw (
      generate_did_ffi-text S sk L (str "key") refl,
      c_string-to_string json L.json (generated_reply S L sk),
    )

    pub test_generate_did_key_explicit_lem :
        (m : Memory) → test_generate_did_key_explicit m ≡ some (tt, m)
    unfolding test_generate_did_key_explicit
    test_generate_did_key_explicit_lem m =
        let reply = generated_reply S L sk in
        step _ _ (c_string_new_lem (str "key") key_no_nul)
        ⨾ call_live S A L R I m _ _ reply replies_to_key
        ⨾ step _ _ (from_str_lem S _ reply (generated_reply-reads S L sk R))
        ⨾ step _ _ (str_at_lem S reply (str "did") _ (get_str-did S L sk))
        ⨾ step _ _ (assert_lem (starts_with-append (str "did:key:") _))
        ⨾ step _ _ (str_at_lem S reply (str "private_key_base58") _ (get_str-private_key S L sk))
        ⨾ step _ _ (assert_lem (ap not (generated_key_not_empty S L sk)))
        ⨾ free_under [] m (A.fresh m) _ (I.fresh-ne-null m) tt
