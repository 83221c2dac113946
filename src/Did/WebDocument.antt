-- ===== src/Did/WebDocument.antt =====
-- The document of a `did:web` that `generate_did` writes.
use did_rust.Prelude.{Text, str, Bytes, true, [], ◌∷◌, ◌++◌, some, ◌≡◌, refl}
use did_rust.Prelude.Utf8.{is_utf8, is_utf8-append}
use did_rust.Services.{Services, IsLawful}
use did_rust.Document.{document_value, method_value}
use did_rust.Document.RoundTrip.{IsTextDocument}
use did_rust.Resolver.{DidDocument, did_web}
use did_rust.Resolver.Key.{multikey-IsBytes}
use did_rust.Did.{ed25519_multibase, web_document}

pub did_web-is_utf8 : is_utf8 did_web ≡ true
unfolding is_utf8 str
did_web-is_utf8 = refl

-- The literals of the document are valid texts.
literals-is_utf8 :
    (is_utf8 (str "#keys-1") ≡ true)
    × (is_utf8 (str "Ed25519VerificationKey2018") ≡ true)
    × (is_utf8 (str "z") ≡ true)
unfolding is_utf8 str
literals-is_utf8 = (refl, refl, refl)

module _ (S : Services) where
  open S use {primitives, json}
  open primitives use {bs58, ed25519}

  -- The document of a `did:web` and its key.
  abbrev pub web_did_document : Text → Bytes → DidDocument
  web_did_document domain key = record {
    id = did_web ++ domain;
    verification_method =
        record {
          id = (did_web ++ domain) ++ str "#keys-1";
          type_ = str "Ed25519VerificationKey2018";
          controller = did_web ++ domain;
          public_key_base58 = some (bs58.encode key);
          public_key_multibase = some (ed25519_multibase S key);
        }
        ∷ [];
  }

  pub web_document_lem :
      (domain : Text) (key : Bytes)
      → web_document S domain key ≡ document_value json (web_did_document domain key)
  unfolding web_document document_value method_value str
  web_document_lem domain key = refl

  module _ (L : IsLawful S) (sk : ed25519.SigningKey) (domain : Text)
      (domain_text : is_utf8 domain ≡ true) where
    pub web_did_document-IsText :
        IsTextDocument
          (web_did_document domain (ed25519.verifying_key_as_bytes (ed25519.verifying_key sk)))
    unfolding str ed25519_multibase
    web_did_document-IsText =
        let array =
          L.primitives.ed25519.verifying_key_as_bytes-IsArray (ed25519.verifying_key sk) in
        let did_text = is_utf8-append did_web domain did_web-is_utf8 domain_text in
        let multibase = L.primitives.bs58.encode-is_utf8 _ (multikey-IsBytes _ array) in
        record {
          id = did_text;
          verification_method = (
            record {
              id = is_utf8-append (did_web ++ domain) (str "#keys-1") did_text literals-is_utf8.0;
              type_ = literals-is_utf8.1;
              controller = did_text;
              public_key_base58 = L.primitives.bs58.encode-is_utf8 _ array.bytes;
              public_key_multibase = is_utf8-append (str "z") _ literals-is_utf8.2 multibase;
            },
            tt,
          );
        }
