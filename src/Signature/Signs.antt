-- ===== src/Signature/Signs.antt =====
-- A signature by a key that the signer's document lists is accepted.
use did_rust.Prelude.{Text, str, Bytes, length, List, [], ◌∷◌, ◌++◌, ok, ◌≡◌, ◌∙◌, ap, inl, inr}
use did_rust.Services.{Services, IsLawful, resolve, network}
use did_rust.Crypto.{key_did}
use did_rust.Resolver.{VerificationMethod, DidDocument, key_document}
use did_rust.Resolver.Key.{multikey, resolve-multikey}
use did_rust.Signature.{decode_or_default, pub_key_bytes}
use did_rust.Signature.Keys.{pub_key_bytes-Publishes}
use did_rust.Signature.Accepts.{Any, method_key, Verifies, SignedBy}

module _ (S : Services) where
  open S use {primitives}
  open primitives use {bs58, hex, ed25519}

  -- The document of the identifier lists the key.
  pub record HasKey (did : Text) (key : Bytes) : Type 0 where
    pub document : DidDocument
    pub resolved : resolve S did ≡ ok document
    pub listed : Any (λ method. method_key S method ≡ key) document.verification_method

  module _ (L : IsLawful S) where
    Verifies-sign :
        (sk : ed25519.SigningKey) (payload : Bytes) (method : VerificationMethod)
        → method_key S method ≡ ed25519.verifying_key_as_bytes (ed25519.verifying_key sk)
        → Verifies S payload (ed25519.sign sk payload) method
    Verifies-sign sk payload method e =
        let vk = ed25519.verifying_key sk in
        let size =
          ap (λ (b : Bytes). length b) e
          ∙ (L.primitives.ed25519.verifying_key_as_bytes-IsArray vk).size in
        record {
          key = method_key S method;
          size = size;
          published =
              pub_key_bytes-Publishes S method.public_key_base58 method.public_key_multibase size;
          verifying_key = vk;
          from_bytes =
              ap ed25519.verifying_key_from_bytes e
              ∙ L.primitives.ed25519.verifying_key_from_bytes-as_bytes vk;
          verified = L.primitives.ed25519.verify-sign sk payload;
        }

    Any-Verifies :
        (sk : ed25519.SigningKey) (payload : Bytes) (methods : List VerificationMethod)
        → Any
            (λ method.
              method_key S method ≡ ed25519.verifying_key_as_bytes (ed25519.verifying_key sk))
            methods
        → Any (Verifies S payload (ed25519.sign sk payload)) methods
    Any-Verifies sk payload [] h = absurd h
    Any-Verifies sk payload (method ∷ methods) (inl e) = inl (Verifies-sign sk payload method e)
    Any-Verifies sk payload (method ∷ methods) (inr h) = inr (Any-Verifies sk payload methods h)

    pub SignedBy-sign :
        (sk : ed25519.SigningKey) (payload : Bytes) (did : Text)
        → HasKey did (ed25519.verifying_key_as_bytes (ed25519.verifying_key sk))
        → SignedBy S payload (hex.encode (ed25519.signature_to_bytes (ed25519.sign sk payload))) did
    SignedBy-sign sk payload did h =
        let signature = ed25519.sign sk payload in
        let bytes = L.primitives.ed25519.signature_to_bytes-IsArray signature in
        record {
          sig_bytes = ed25519.signature_to_bytes signature;
          decoded = L.primitives.hex.decode-encode _ bytes.bytes;
          size = bytes.size;
          signature = signature;
          from_slice = L.primitives.ed25519.signature_from_slice-to_bytes signature;
          document = h.document;
          resolved = h.resolved;
          verified = Any-Verifies sk payload h.document.verification_method h.listed;
        }

    -- An identifier made from a signing key lists its public key.
    pub HasKey-key_did :
        (priv : Bytes)
        → HasKey
            (key_did primitives priv)
            (ed25519.verifying_key_as_bytes (ed25519.verifying_key (ed25519.signing_key priv)))
    unfolding key_did key_document pub_key_bytes decode_or_default
    HasKey-key_did priv =
        let key =
          ed25519.verifying_key_as_bytes (ed25519.verifying_key (ed25519.signing_key priv)) in
        let array = L.primitives.ed25519.verifying_key_as_bytes-IsArray _ in
        record {
          document =
              key_document (key_did primitives priv) (str "z" ++ bs58.encode (multikey key))
                (bs58.encode key);
          resolved = resolve-multikey (network S) L.primitives.bs58 key array;
          listed = inl (rw (L.primitives.bs58.decode-encode key array.bytes, decode_or_default));
        }
