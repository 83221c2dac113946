-- ===== src/Did.antt =====
-- src/lib.rs: `generate_did` and `resolve_did`.
pub mod Resolve
pub mod Generate
pub mod Issues
pub mod Presents
pub mod WebDocument
pub mod Web
pub mod Replies
pub mod Texts
pub mod ReadBack
use did_rust.Prelude.{
  Text, str, strip_prefix, Bytes, [], ◌∷◌, ◌++◌, Option, none, some, Result, ok, err, panic,
  returned, text_eq, if◌then◌else◌,
}
use did_rust.Services.{Services, resolve}
use did_rust.Crypto.{ed25519_multicodec}
use did_rust.Crates.Json.{array, string_value, json_object}

-- `method.strip_prefix("web:").or_else(|| method.strip_prefix("did:web:"))`
unfoldable pub web_domain : Text → Option Text
web_domain method = elim (strip_prefix method (str "web:")) [
  | some domain ↦ some domain
  | none ↦ strip_prefix method (str "did:web:")
]

module _ (S : Services) where
  open S use {primitives, json, document_to_string}
  open primitives use {bs58, ed25519}

  unfoldable pub ed25519_multibase : Bytes → Text
  ed25519_multibase pubkey = str "z" ++ bs58.encode (ed25519_multicodec ++ pubkey)

  -- The document to publish for a `did:web`, and the reply that holds it.
  unfoldable pub web_document : Text → Bytes → json.Value
  web_document domain public_key =
      let did = str "did:web:" ++ domain in
      let method = json_object json (
        (str "id", string_value json (did ++ str "#keys-1"))
        ∷ (str "type", string_value json (str "Ed25519VerificationKey2018"))
        ∷ (str "controller", string_value json did)
        ∷ (str "publicKeyBase58", string_value json (bs58.encode public_key))
        ∷ (str "publicKeyMultibase", string_value json (ed25519_multibase public_key))
        ∷ []) in
      json_object json (
        (str "id", string_value json did)
        ∷ (str "verificationMethod", json.value (array (method ∷ [])))
        ∷ [])

  unfoldable pub web_reply : Text → Text → Bytes → json.Value
  web_reply domain seed_b58 public_key = json_object json (
      (str "did", string_value json (str "did:web:" ++ domain))
      ∷ (str "private_key_base58", string_value json seed_b58)
      ∷ (str "did_document", web_document domain public_key)
      ∷ [])

  unfoldable pub key_reply : Text → Bytes → json.Value
  key_reply seed_b58 public_key = json_object json (
      (str "did", string_value json (str "did:key:" ++ ed25519_multibase public_key))
      ∷ (str "private_key_base58", string_value json seed_b58)
      ∷ [])

  -- The signing key is the one that `SigningKey::generate` drew.
  unfoldable pub generate_did : ed25519.SigningKey → Text → Result Text Text
  generate_did signing_key method =
      let public_key = ed25519.verifying_key_as_bytes (ed25519.verifying_key signing_key) in
      let seed_b58 = bs58.encode (ed25519.signing_key_to_bytes signing_key) in
      elim (web_domain method) [
        | none ↦ ok (json.to_string (key_reply seed_b58 public_key))
        | some domain ↦
            if text_eq domain []
            then err (str "did:web requires a domain, e.g. 'web:example.com'")
            else ok (json.to_string (web_reply domain seed_b58 public_key))
      ]

  unfoldable pub resolve_did : Text → Result Text Text
  resolve_did did_str = elim (resolve S did_str) [
    | ok doc ↦ returned (document_to_string doc)
    | err e ↦ ok (json.to_string (json_object json ((str "error", string_value json e) ∷ [])))
    | panic ↦ panic
  ]
