-- ===== src/Signature/Accepts.antt =====
-- Exactly when `internal_verify_signature` accepts, and that it never panics on a valid text.
use did_rust.Prelude.{
  Text, Bytes, length, true, List, [], ◌∷◌, some, Option-cases, ⊎-cases, Result-cases, Bool-cases,
  ◌⊎◌, inl, inr, ok, panic, ◌≡◌, ◌≢◌, ◌↔◌, ==_iff, arith,
}
use did_rust.Prelude.Utf8.{is_utf8}
use did_rust.Services.{Services, resolve, network}
use did_rust.Resolver.{VerificationMethod, DidDocument}
use did_rust.Resolver.Safety.{HasClient, resolve-ne-panic}
use did_rust.Signature.Keys.{Publishes, pub_key_bytes-Publishes, Publishes-pub_key_bytes}
use did_rust.Signature.{pub_key_bytes, key_verifies, verify_with, internal_verify_signature}

-- Some element of a list.
abbrev pub Any {ℓ} : {A : Type ℓ} → (A → Type 0) → List A → Type 0
Any P [] = ⊥
Any P (x ∷ xs) = P x ⊎ Any P xs

abbrev pub method_key : (S : Services) → VerificationMethod → Bytes
method_key S method = pub_key_bytes S method.public_key_base58 method.public_key_multibase

module _ (S : Services) where
  open S use {primitives}
  open primitives use {bs58, hex, ed25519}

  -- A method with a key of 32 bytes that verifies the signature.
  pub record Verifies (payload : Bytes) (signature : ed25519.Signature)
      (method : VerificationMethod) : Type 0 where
    pub key : Bytes
    pub size : length key ≡ 32
    pub published : Publishes S method.public_key_base58 method.public_key_multibase key
    pub verifying_key : ed25519.VerifyingKey
    pub from_bytes : ed25519.verifying_key_from_bytes key ≡ some verifying_key
    pub verified : ed25519.verify verifying_key payload signature ≡ true

  -- The signature in hex is 64 bytes, and some key of the identifier's document verifies it.
  pub record SignedBy (payload : Bytes) (sig_hex did : Text) : Type 0 where
    pub sig_bytes : Bytes
    pub decoded : hex.decode sig_hex ≡ inr sig_bytes
    pub size : length sig_bytes ≡ 64
    pub signature : ed25519.Signature
    pub from_slice : ed25519.signature_from_slice sig_bytes ≡ some signature
    pub document : DidDocument
    pub resolved : resolve S did ≡ ok document
    pub verified : Any (Verifies payload signature) document.verification_method

  key_verifies-Verifies :
      (payload : Bytes) (signature : ed25519.Signature) (method : VerificationMethod)
      → key_verifies S payload signature (method_key S method) ≡ true
      → Verifies payload signature method
  unfolding key_verifies
  key_verifies-Verifies payload signature method h =
      elim (Option-cases (ed25519.verifying_key_from_bytes (method_key S method))) [
        | inl e ↦ absurd (ground arith)
        | inr (k, e) ↦
            let size : length (method_key S method) ≡ 32 = ground arith in
            record {
              key = method_key S method;
              size = size;
              published =
                  pub_key_bytes-Publishes S method.public_key_base58 method.public_key_multibase
                    size;
              verifying_key = k;
              from_bytes = e;
              verified = ground arith;
            }
      ]

  Verifies-key_verifies :
      (payload : Bytes) (signature : ed25519.Signature) (method : VerificationMethod)
      → Verifies payload signature method
      → key_verifies S payload signature (method_key S method) ≡ true
  unfolding key_verifies
  Verifies-key_verifies payload signature method v =
      rw
        (
          Publishes-pub_key_bytes S method.public_key_base58 method.public_key_multibase v.key
              v.size v.published,
          (==_iff (length v.key) 32).1 v.size,
          v.from_bytes,
        )
        v.verified

  verify_with-Any :
      (payload : Bytes) (signature : ed25519.Signature) (methods : List VerificationMethod)
      → verify_with S payload signature methods ≡ ok tt
      → Any (Verifies payload signature) methods
  unfolding verify_with
  verify_with-Any payload signature [] h = cc
  verify_with-Any payload signature (method ∷ methods) h =
      elim (Bool-cases (key_verifies S payload signature (method_key S method))) [
        | inl e ↦ inl (key_verifies-Verifies payload signature method e)
        | inr e ↦ inr (verify_with-Any payload signature methods (rw e at h))
      ]

  Any-verify_with :
      (payload : Bytes) (signature : ed25519.Signature) (methods : List VerificationMethod)
      → Any (Verifies payload signature) methods
      → verify_with S payload signature methods ≡ ok tt
  unfolding verify_with
  Any-verify_with payload signature [] v = absurd v
  Any-verify_with payload signature (method ∷ methods) (inl v) =
      rw (Verifies-key_verifies payload signature method v)
  Any-verify_with payload signature (method ∷ methods) (inr v) =
      ground (arith, Any-verify_with payload signature methods v)

  verify_with-ne-panic :
      (payload : Bytes) (signature : ed25519.Signature) (methods : List VerificationMethod)
      → verify_with S payload signature methods ≢ panic
  unfolding verify_with
  verify_with-ne-panic payload signature [] = cc
  verify_with-ne-panic payload signature (method ∷ methods) =
      ground (arith, verify_with-ne-panic payload signature methods)

  module _ (payload : Bytes) (sig_hex did : Text) where
    internal_verify_signature-SignedBy :
        internal_verify_signature S payload sig_hex did ≡ ok tt → SignedBy payload sig_hex did
    unfolding internal_verify_signature
    internal_verify_signature-SignedBy h = elim (⊎-cases (hex.decode sig_hex)) [
      | inl (_, e) ↦ absurd (ground arith)
      | inr (sig_bytes, decoded) ↦ elim (Option-cases (ed25519.signature_from_slice sig_bytes)) [
        | inl e ↦ absurd (ground arith)
        | inr (signature, from_slice) ↦ elim (Result-cases (resolve S did)) [
          | inr (inl (_, e)) ↦ absurd (ground arith)
          | inr (inr e) ↦ absurd (ground arith)
          | inl (document, resolved) ↦ record {
            sig_bytes = sig_bytes;
            decoded = decoded;
            size = ground arith;
            signature = signature;
            from_slice = from_slice;
            document = document;
            resolved = resolved;
            verified =
                verify_with-Any payload signature document.verification_method (ground arith);
          }
        ]
      ]
    ]

    SignedBy-internal_verify_signature :
        SignedBy payload sig_hex did → internal_verify_signature S payload sig_hex did ≡ ok tt
    unfolding internal_verify_signature
    SignedBy-internal_verify_signature s =
        rw (s.decoded, (==_iff (length s.sig_bytes) 64).1 s.size, s.from_slice, s.resolved)
          (Any-verify_with payload s.signature s.document.verification_method s.verified)

    -- `internal_verify_signature` accepts exactly if the signature decodes from hex to 64 bytes
    -- that make a signature, the identifier resolves, and some method of its document publishes
    -- a key of 32 bytes that is a verifying key and verifies the payload: in base 58, or, if it
    -- has no such field, in multibase with a `z`, behind the multicodec of Ed25519.
    pub internal_verify_signature_iff :
        (internal_verify_signature S payload sig_hex did ≡ ok tt) ↔ SignedBy payload sig_hex did
    internal_verify_signature_iff =
        (internal_verify_signature-SignedBy, SignedBy-internal_verify_signature)

    pub internal_verify_signature-ne-panic :
        HasClient (network S)
        → is_utf8 did ≡ true
        → internal_verify_signature S payload sig_hex did ≢ panic
    unfolding internal_verify_signature
    internal_verify_signature-ne-panic H h =
        grind (arith, resolve-ne-panic (network S) H did h, verify_with-ne-panic)
