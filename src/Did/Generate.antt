-- ===== src/Did/Generate.antt =====
-- The key pair that `generate_did` replies with.
use did_rust.Prelude.{
  Text, str, text_eq, Bytes, ◌++◌, none, some, inr, ok, ◌≡◌, refl, ap, sym, ◌∙◌, subst, true, false,
}
use did_rust.Prelude.Utf8.{is_utf8}
use did_rust.Crates.Json.{object, string_value, json_object}
use did_rust.Services.{Services, IsLawful}
use did_rust.Crypto.{key_did}
use did_rust.Resolver.Key.{multikey, multikey-IsBytes}
use did_rust.Signature.Signs.{HasKey, HasKey-key_did}
use did_rust.Credential.{map_get_str}
use did_rust.Credential.Fields.{map_get_str-insert_ne, map_get_str-insert_self}
use did_rust.Did.{web_domain, ed25519_multibase, key_reply, generate_did}

keys_differ : text_eq (str "private_key_base58") (str "did") ≡ false
unfolding str text_eq
keys_differ = refl

module _ (S : Services) where
  open S use {primitives, json}
  open primitives use {bs58, ed25519}

  module _ (sk : ed25519.SigningKey) (method : Text) where
    -- The reply holds an identifier and a private key that belong together: the key decodes to
    -- that of the pair, and the identifier resolves to a document that lists its public key.
    pub record IsKeyPair (reply : json.Map) : Type 0 where
      pub did : Text
      pub has_did : map_get_str S reply (str "did") ≡ some did
      pub private_key : Text
      pub has_private_key : map_get_str S reply (str "private_key_base58") ≡ some private_key
      pub decoded : bs58.decode private_key ≡ inr (ed25519.signing_key_to_bytes sk)
      pub listed : HasKey S did (ed25519.verifying_key_as_bytes (ed25519.verifying_key sk))

    abbrev key_reply_map : json.Map
    key_reply_map =
        let public_key = ed25519.verifying_key_as_bytes (ed25519.verifying_key sk) in
        json.insert
          (json.insert json.new (str "did")
            (string_value json (str "did:key:" ++ ed25519_multibase S public_key)))
          (str "private_key_base58")
          (string_value json (bs58.encode (ed25519.signing_key_to_bytes sk)))

    module _ (L : IsLawful S) where
      pub generated_did :
          str "did:key:"
            ++ ed25519_multibase S (ed25519.verifying_key_as_bytes (ed25519.verifying_key sk))
          ≡ key_did primitives (ed25519.signing_key_to_bytes sk)
      unfolding str ed25519_multibase key_did
      generated_did =
          ap
            (λ k.
              str "did:key:z"
              ++ bs58.encode (multikey (ed25519.verifying_key_as_bytes (ed25519.verifying_key k))))
            (sym (L.primitives.ed25519.signing_key-signing_key_to_bytes sk))

      pub did_text :
          (key : Bytes)
          → is_utf8 (bs58.encode (multikey key)) ≡ true
          → is_utf8 (str "did:key:" ++ ed25519_multibase S key) ≡ true
      unfolding str ed25519_multibase is_utf8
      did_text key h = h

      key_reply_map-IsKeyPair : IsKeyPair key_reply_map
      key_reply_map-IsKeyPair =
          let key = ed25519.verifying_key_as_bytes (ed25519.verifying_key sk) in
          let key_array =
            L.primitives.ed25519.verifying_key_as_bytes-IsArray (ed25519.verifying_key sk) in
          let sk_array = L.primitives.ed25519.signing_key_to_bytes-IsArray sk in
          let text =
            did_text key (L.primitives.bs58.encode-is_utf8 _ (multikey-IsBytes key key_array)) in
          record {
            did = str "did:key:" ++ ed25519_multibase S key;
            has_did =
                map_get_str-insert_ne S L _ (str "private_key_base58") (str "did") _ keys_differ
                ∙ map_get_str-insert_self S L json.new (str "did") _ text;
            private_key = bs58.encode (ed25519.signing_key_to_bytes sk);
            has_private_key =
                map_get_str-insert_self S L _ (str "private_key_base58") _
                  (L.primitives.bs58.encode-is_utf8 _ sk_array.bytes);
            decoded = L.primitives.bs58.decode-encode _ sk_array.bytes;
            listed =
                subst
                  (λ k.
                    HasKey S (str "did:key:" ++ ed25519_multibase S key)
                      (ed25519.verifying_key_as_bytes (ed25519.verifying_key k)))
                  (L.primitives.ed25519.signing_key-signing_key_to_bytes sk)
                  (subst
                    (λ d. HasKey S d (
                      ed25519.verifying_key_as_bytes (
                        ed25519.verifying_key
                          (ed25519.signing_key (ed25519.signing_key_to_bytes sk)))))
                    (sym generated_did) (HasKey-key_did S L (ed25519.signing_key_to_bytes sk)));
          }

      -- The reply for a `did:key`.
      pub generate_did_key :
          web_domain method ≡ none
          → (reply : json.Map) × (generate_did S sk method
              ≡ ok (json.to_string (json.value (object reply))))
            × IsKeyPair reply
      unfolding generate_did key_reply json_object
      generate_did_key h = (key_reply_map, rw (h, generate_did), key_reply_map-IsKeyPair)
