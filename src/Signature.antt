-- ===== src/Signature.antt =====
-- src/lib.rs: `internal_verify_signature`.
pub mod Signs
pub mod Accepts
pub mod Keys
use did_rust.Prelude.{
  Text, str, strip_prefix, Bytes, length, drop, Bool, false, List, [], ◌∷◌, ◌++◌, Option, none,
  some, inl, inr, Result, ok, err, ok_or, returned, map_err, ◌>>=◌, ◌>>◌, guard, ◌==◌,
  if◌then◌else◌,
}
use did_rust.Services.{Services, resolve}
use did_rust.Resolver.{VerificationMethod, is_ed25519_multikey}

module _ (S : Services) where
  open S use {primitives}
  open primitives use {bs58, hex, ed25519}

  -- `bs58::decode(s).into_vec().unwrap_or_default()`
  unfoldable pub decode_or_default : Text → Bytes
  decode_or_default s = elim (bs58.decode s) [ inl _ ↦ [] | inr b ↦ b ]

  unfoldable pub multibase_key : Option Text → Bytes
  multibase_key none = []
  multibase_key (some multibase) = elim (strip_prefix multibase (str "z")) [
    | none ↦ []
    | some stripped ↦
        let dec = decode_or_default stripped in if is_ed25519_multikey dec then drop 2 dec else []
  ]

  -- The key of a method, empty if it has none: base 58 comes before multibase.
  unfoldable pub pub_key_bytes : Option Text → Option Text → Bytes
  pub_key_bytes (some b58) multibase = decode_or_default b58
  pub_key_bytes none multibase = multibase_key multibase

  -- The body of the loop: whether this key verifies the signature.
  unfoldable pub key_verifies : Bytes → ed25519.Signature → Bytes → Bool
  key_verifies payload_bytes signature key =
      if length key == 32
      then elim (ed25519.verifying_key_from_bytes key) [
        | none ↦ false
        | some verifying_key ↦ ed25519.verify verifying_key payload_bytes signature
      ]
      else false

  unfoldable pub verify_with :
      Bytes → ed25519.Signature → List VerificationMethod → Result Text (Unit {0})
  verify_with payload_bytes signature [] = err (str "Signature verification failed")
  verify_with payload_bytes signature (method ∷ methods) =
      let rest = verify_with payload_bytes signature methods in
      let key = pub_key_bytes method.public_key_base58 method.public_key_multibase in
      if key_verifies payload_bytes signature key then ok tt else rest

  unfoldable pub internal_verify_signature : Bytes → Text → Text → Result Text (Unit {0})
  internal_verify_signature payload_bytes sig_hex did = do
    sig_bytes ← map_err (λ _. str "Invalid hex signature") (returned (hex.decode sig_hex))
    guard (length sig_bytes == 64) (str "Invalid signature length")
    signature ← ok_or (str "Invalid signature format") (ed25519.signature_from_slice sig_bytes)
    did_doc ← map_err (λ e. str "DID resolution failed: " ++ e) (resolve S did)
    verify_with payload_bytes signature did_doc.verification_method
