-- ===== src/Crates/Signing.antt =====
-- ed25519_dalek
use did_rust.Prelude.{Bytes, IsArray, ◌≡◌, Option, some, Bool, true}

pub record Ed25519 : Type 1 where
  pub SigningKey : Type 0
  pub VerifyingKey : Type 0
  pub Signature : Type 0
  -- `SigningKey::from_bytes` of 32 bytes, and `to_bytes`
  pub signing_key : Bytes → SigningKey
  pub signing_key_to_bytes : SigningKey → Bytes
  -- `signing_key.verifying_key()`, `VerifyingKey::from_bytes` of 32 bytes, and `as_bytes`
  pub verifying_key : SigningKey → VerifyingKey
  pub verifying_key_from_bytes : Bytes → Option VerifyingKey
  pub verifying_key_as_bytes : VerifyingKey → Bytes
  -- `signing_key.sign(message)`, `Signature::from_slice`, and `to_bytes`
  pub sign : SigningKey → Bytes → Signature
  pub signature_from_slice : Bytes → Option Signature
  pub signature_to_bytes : Signature → Bytes
  -- `verifying_key.verify(message, signature).is_ok()`
  pub verify : VerifyingKey → Bytes → Signature → Bool

pub record IsEd25519 (e : Ed25519) : Type 0 where
  pub signing_key-signing_key_to_bytes :
      (k : e.SigningKey) → e.signing_key (e.signing_key_to_bytes k) ≡ k
  pub signing_key_to_bytes-IsArray : (k : e.SigningKey) → IsArray 32 (e.signing_key_to_bytes k)
  pub verifying_key_from_bytes-as_bytes :
      (k : e.VerifyingKey) → e.verifying_key_from_bytes (e.verifying_key_as_bytes k) ≡ some k
  pub verifying_key_as_bytes-IsArray :
      (k : e.VerifyingKey) → IsArray 32 (e.verifying_key_as_bytes k)
  pub signature_from_slice-to_bytes :
      (s : e.Signature) → e.signature_from_slice (e.signature_to_bytes s) ≡ some s
  pub signature_to_bytes-IsArray : (s : e.Signature) → IsArray 64 (e.signature_to_bytes s)
  -- A signature is verified by the key of its signer.
  pub verify-sign :
      (k : e.SigningKey) (m : Bytes) → e.verify (e.verifying_key k) m (e.sign k m) ≡ true
