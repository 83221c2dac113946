-- ===== src/Safety.antt =====
-- The calls that src/lib.rs exports do not panic on a valid text.
use did_rust.Prelude.{ℕ, Text, Bytes, true, inl, inr, panic, ◌≡◌, ◌≢◌, arith}
use did_rust.Prelude.Utf8.{is_utf8}
use did_rust.Services.{Services, IsLawful, network}
use did_rust.Resolver.Safety.{HasClient, resolve-ne-panic}
use did_rust.Crypto.Identity
use did_rust.Crypto
use did_rust.Crypto.{CryptoError}
use did_rust.Vault
use did_rust.Vault.RoundTrip.{decrypt_vault_payload-cases}
use did_rust.Credential
use did_rust.Credential.{private_key}
use did_rust.Credential.Verdict.{verify_vc-cases}
use did_rust.Presentation
use did_rust.Presentation.Verdict.{verify_vp-cases}
use did_rust.Did

module _ (S : Services) where
  open S use {primitives, json, chrono}
  open primitives use {ed25519}

  pub generate_did-ne-panic :
      (sk : ed25519.SigningKey) (method : Text) → Did.generate_did S sk method ≢ panic
  unfolding Did.generate_did
  generate_did-ne-panic sk method = ground arith

  pub issue_vc-ne-panic :
      (credential_json did key_b58 : Text)
      → Credential.issue_vc S credential_json did key_b58 ≢ panic
  unfolding Credential.issue_vc private_key
  issue_vc-ne-panic credential_json did key_b58 = ground arith

  pub resolve_did-ne-panic :
      HasClient (network S) → (did : Text) → is_utf8 did ≡ true → Did.resolve_did S did ≢ panic
  unfolding Did.resolve_did
  resolve_did-ne-panic H did h = grind (arith, resolve-ne-panic (network S) H did h)

  module _ (L : IsLawful S) (H : HasClient (network S)) where
    pub verify_vc-ne-panic : (now : chrono.Time) (t : Text) → Credential.verify_vc S now t ≢ panic
    verify_vc-ne-panic now t h = elim (verify_vc-cases S L.json H now t) [
      | inl (e, _, (v, said, _)) ↦ cc
      | inr (inl (vc, _, _, (v, said, _))) ↦ cc
      | inr (inr (vc, e, _, _, _, (v, said, _))) ↦ cc
    ]

    pub verify_vp-ne-panic :
        (clock : ℕ → chrono.Time) (t : Text) → Presentation.verify_vp S clock t ≢ panic
    verify_vp-ne-panic clock t h = elim (verify_vp-cases S L.json H clock t) [
      | inl (e, _, (v, said, _)) ↦ cc
      | inr (inl (vp, _, _, (v, said, _))) ↦ cc
      | inr (inr (vp, e, _, _, _, (v, said, _))) ↦ cc
    ]

  module _ (L : IsLawful S) where
    pub derived-ne-panic :
        (seed : Bytes) (index : ℕ)
        → (Crypto.derive_identity_from_prf primitives seed index ≢ panic)
          × (Crypto.derive_dependent_subkeys primitives seed index ≢ panic)
    derived-ne-panic seed index = (
      (λ h. elim (Identity.derive_identity_from_prf-cases primitives L.primitives seed index) [
        | inl (i, said, _, _, _) ↦ cc
        | inr (_, said) ↦ cc
      ]),
      (λ h. elim (Identity.derive_dependent_subkeys-cases primitives L.primitives seed index) [
        | inl (i, said, _, _, _) ↦ cc
        | inr (_, said) ↦ cc
      ]),
    )

  pub encrypt-ne-panic :
      (nonce kek m : Bytes) → Vault.encrypt_vault_payload primitives nonce kek m ≢ panic
  unfolding Vault.encrypt_vault_payload
  encrypt-ne-panic nonce kek m = ground arith

  pub decrypt-ne-panic : (kek c : Bytes) → Vault.decrypt_vault_payload primitives kek c ≢ panic
  decrypt-ne-panic kek c h = elim (decrypt_vault_payload-cases primitives kek c) [
    | inl (_, said) ↦ cc
    | inr (inl (_, _, said)) ↦ cc
    | inr (inr (m, _, _, said)) ↦ cc
  ]
