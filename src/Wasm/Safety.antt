-- ===== src/Wasm/Safety.antt =====
-- No entry point of the WASM interface panics.
use did_rust.Prelude.{ℕ, Text, Bytes, true, Result, ok, err, panic, ◌≡◌, ◌≢◌, refl, arith}
use did_rust.Prelude.Utf8.{is_utf8}
use did_rust.Services.{Services, IsLawful, network}
use did_rust.Resolver.Safety.{HasClient}
use did_rust.Safety.{
  generate_did-ne-panic, issue_vc-ne-panic, resolve_did-ne-panic, verify_vc-ne-panic,
  verify_vp-ne-panic, derived-ne-panic, encrypt-ne-panic, decrypt-ne-panic,
}
use did_rust.Wasm.{
  or_error_object, generate_did, verify_vc, verify_vp, issue_vc, resolve_did,
  derive_identity_from_prf, derive_dependent_subkeys, encrypt_vault_payload, open_with,
  decrypt_vault_payload,
}

module _ (S : Services) where
  open S use {primitives, chrono}
  open primitives use {ed25519}

  or_error_object-ne-panic : (r : Result Text Text) → r ≢ panic → or_error_object S r ≢ panic
  unfolding or_error_object
  or_error_object-ne-panic (ok s) h = cc
  or_error_object-ne-panic (err e) h = cc
  or_error_object-ne-panic panic h = absurd (h refl)

  -- With lawful packages, and with the feature `http-resolver` off, as it is for WASM, or an
  -- HTTP client that can be built, none of the nine functions of the WASM interface panics, on
  -- any texts where the identifier to resolve is valid UTF-8.
  pub entry_points-ne-panic :
      IsLawful S
      → HasClient (network S)
      → (sk : ed25519.SigningKey) (now : chrono.Time) (clock : ℕ → chrono.Time) (nonce : Bytes)
        (index : ℕ) (t did key : Text)
      → is_utf8 did ≡ true
      → (generate_did S sk t ≢ panic)
        × (verify_vc S now t ≢ panic)
        × (verify_vp S clock t ≢ panic)
        × (issue_vc S t did key ≢ panic)
        × (resolve_did S did ≢ panic)
        × (derive_identity_from_prf S t index ≢ panic)
        × (derive_dependent_subkeys S t index ≢ panic)
        × (encrypt_vault_payload S nonce key t ≢ panic)
        × (decrypt_vault_payload S key t ≢ panic)
  unfolding generate_did verify_vc verify_vp issue_vc resolve_did derive_identity_from_prf
      derive_dependent_subkeys encrypt_vault_payload decrypt_vault_payload open_with
  entry_points-ne-panic L H sk now clock nonce index t did key h = (
    or_error_object-ne-panic _ (generate_did-ne-panic S sk t),
    verify_vc-ne-panic S L H now t,
    verify_vp-ne-panic S L H clock t,
    or_error_object-ne-panic _ (issue_vc-ne-panic S t did key),
    or_error_object-ne-panic _ (resolve_did-ne-panic S H did h),
    grind (arith, derived-ne-panic S L),
    grind (arith, derived-ne-panic S L),
    grind (arith, encrypt-ne-panic S),
    grind (arith, decrypt-ne-panic S),
  )
