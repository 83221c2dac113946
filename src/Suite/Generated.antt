-- ===== src/Suite/Generated.antt =====
-- What a unit test reads from the reply of `generate_did`.
use did_rust.Prelude.{
  ok, strip_prefix, str, text_eq, has_nul, IsArray, IsBytes, Bytes, false, [], ◌∷◌, none, some, inr,
  ◌≡◌, refl, arith,
}
use did_rust.Prelude.Utf8.{is_utf8}
use did_rust.Crates.Json.{json_object}
use did_rust.Crates.Json.Tree.{IsReadBack, fields, text, member, end}
use did_rust.Services.{Services, IsLawful}
use did_rust.Credential.{get_str}
use did_rust.Credential.Verdict.{get_str-json_object}
use did_rust.Did.{web_domain, generate_did, ed25519_multibase, key_reply}
use did_rust.Did.Issues.{generated, generated_key, generated-is_utf8}
use did_rust.Ffi.{generate_did_ffi}
use did_rust.Ffi.Strings.{c_string-to_string}
use did_rust.Ffi.EndToEnd.{generated_key-is_utf8}
use did_rust.Resolver.Key.{multikey-IsBytes}

module _ (S : Services) (L : IsLawful S) (sk : S.primitives.ed25519.SigningKey) where
  open S use {primitives, json}
  open primitives use {bs58, ed25519}

  abbrev pub generated_reply : json.Value
  generated_reply =
      key_reply S (generated_key S sk) (ed25519.verifying_key_as_bytes (ed25519.verifying_key sk))

  abbrev key_bytes : IsBytes (ed25519.signing_key_to_bytes sk)
  key_bytes = (L.primitives.ed25519.signing_key_to_bytes-IsArray sk).bytes

  pub generated-has_nul : has_nul (generated S sk) ≡ false
  unfolding ed25519_multibase str
  generated-has_nul =
      let array = L.primitives.ed25519.verifying_key_as_bytes-IsArray (ed25519.verifying_key sk) in
      L.primitives.bs58.encode-has_nul _ (multikey-IsBytes _ array)

  pub generated_key-has_nul : has_nul (generated_key S sk) ≡ false
  generated_key-has_nul = L.primitives.bs58.encode-has_nul _ key_bytes

  encode_ne_empty : (b : Bytes) → IsArray 32 b → text_eq (bs58.encode b) [] ≡ false
  encode_ne_empty [] h = ground (arith, h.size)
  encode_ne_empty (x ∷ b) h = L.primitives.bs58.encode_not_empty x b h.bytes

  pub generated_key_not_empty : text_eq (generated_key S sk) [] ≡ false
  generated_key_not_empty = encode_ne_empty _ (L.primitives.ed25519.signing_key_to_bytes-IsArray sk)

  pub get_str-did : get_str S generated_reply (str "did") ≡ some (generated S sk)
  unfolding key_reply str text_eq
  get_str-did =
      get_str-json_object S L.json _ (str "did") (generated S sk) refl (generated-is_utf8 S sk L)

  pub get_str-private_key :
      get_str S generated_reply (str "private_key_base58") ≡ some (generated_key S sk)
  unfolding key_reply str text_eq
  get_str-private_key =
      get_str-json_object S L.json _ (str "private_key_base58") (generated_key S sk) refl
        (generated_key-is_utf8 S sk L)

  pub generated_reply-reads :
      IsReadBack json → json.from_str (json.to_string generated_reply) ≡ inr generated_reply
  unfolding key_reply json_object is_utf8 str
  generated_reply-reads R =
      R.from_str-to_string
        (fields (
          member (str "did") (text (generated S sk))
            (member (str "private_key_base58") (text (generated_key S sk)) end)))
        (refl, generated-is_utf8 S sk L, (refl, generated_key-is_utf8 S sk L, tt))

  -- The reply to a null pointer.
  pub replies_to_null : generate_did_ffi S sk none ≡ ok (some (json.to_string generated_reply))
  unfolding generate_did_ffi generate_did str web_domain strip_prefix
  replies_to_null = rw (c_string-to_string json L.json generated_reply)
