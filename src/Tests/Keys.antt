-- ===== src/Tests/Keys.antt =====
-- Derived and generated keys at concrete seeds.
use did_rust.Prelude.{
  ℕ, ◌<◌, Text, str, Bytes, true, false, [], ◌++◌, ◌⊎◌, ok, err, ◌≡◌, refl, arith,
}
use did_rust.Prelude.Words.{to_le_bytes}
use did_rust.Crypto.{
  is_valid, DerivedIdentity, DependentDerivedKeypair, scalar_derivation_failed,
  derive_identity_from_prf, derive_dependent_subkeys, derive_secp256k1_scalar,
  derive_dependent_secp256k1_scalar, dependent_ed25519_domain,
}
use did_rust.Crypto.Attempts.{
  Searched, digest, nostr_preimage, dependent_nostr_preimage, scalars-Searched,
}
use did_rust.Crypto.Separation.{root_nostr, preimage, Collide, derived_separate}
use did_rust.Crypto.Identity.{
  BelongTogether, derive_identity_from_prf-cases, derive_dependent_subkeys-cases,
}
use did_rust.Did.{generate_did}
use did_rust.Prelude.Utf8.{is_utf8}
use did_rust.Prelude.{text_eq, false}
use did_rust.Did.Generate.{IsKeyPair}
use did_rust.Did.Replies.{IsWebMethod, IsWebPair, generate_did-cases}
use did_rust.Tests.Fixture.Keys.{two_keys}
use did_rust.Tests.Fixture.Values.{Fields, obj, tree}
use did_rust.Tests.Fixture.World.{small, small-IsLawful, world, world-IsLawful}

abbrev seed : Bytes
seed = two_keys.signing_key_to_bytes true

derive_identity_from_prf-cases_example :
    ((i : DerivedIdentity) × (derive_identity_from_prf small seed 7 ≡ ok i)
      × (i.ed25519_priv_bytes ≡ digest small (seed ++ (to_le_bytes 7 ++ [])))
      × (derive_secp256k1_scalar small seed 7 ≡ ok i.secp256k1_priv_bytes)
      × BelongTogether small small-IsLawful i.ed25519_priv_bytes i.secp256k1_priv_bytes i.did
          i.nostr_pubkey_hex)
    ⊎ (((k : ℕ) → k < 256 → is_valid small (digest small (nostr_preimage seed 7 k)) ≡ false)
        × (derive_identity_from_prf small seed 7 ≡ err scalar_derivation_failed))
derive_identity_from_prf-cases_example = derive_identity_from_prf-cases small small-IsLawful seed 7

derive_dependent_subkeys-cases_example :
    ((d : DependentDerivedKeypair) × (derive_dependent_subkeys small seed 7 ≡ ok d)
      × (d.ed25519_signing_key_bytes
          ≡ digest small (seed ++ (dependent_ed25519_domain ++ to_le_bytes 7)))
      × (derive_dependent_secp256k1_scalar small seed 7 ≡ ok d.secp256k1_signing_key_bytes)
      × BelongTogether small small-IsLawful d.ed25519_signing_key_bytes
          d.secp256k1_signing_key_bytes d.did d.nostr_pubkey_hex)
    ⊎ (((k : ℕ)
          → k < 256
          → is_valid small (digest small (dependent_nostr_preimage seed 7 k)) ≡ false)
        × (derive_dependent_subkeys small seed 7 ≡ err scalar_derivation_failed))
derive_dependent_subkeys-cases_example = derive_dependent_subkeys-cases small small-IsLawful seed 7

scalars-Searched_example :
    Searched small
      (λ k. digest small (nostr_preimage seed 3 k))
      0
      256
      (derive_secp256k1_scalar small seed 3)
    × Searched small
        (λ k. digest small (dependent_nostr_preimage seed 3 k))
        0
        256
        (derive_dependent_secp256k1_scalar small seed 3)
scalars-Searched_example = scalars-Searched small small-IsLawful seed 3

derived_separate_example :
    ((root_nostr 0 ≡ root_nostr 0) × (◌≡◌ {A = ℕ} 5 5))
    ⊎ Collide small small-IsLawful (preimage (root_nostr 0) seed 5) (preimage (root_nostr 0) seed 5)
derived_separate_example =
    derived_separate small small-IsLawful (root_nostr 0) (root_nostr 0) seed 5 5 refl (omega arith)
      (omega arith) refl

abbrev web_method : Text
web_method = str "web:a.b"

method-is_utf8 : is_utf8 web_method ≡ true
unfolding is_utf8 str
method-is_utf8 = refl

generate_did-cases_example :
    ((reply : Fields) × ((domain : Text) → ¬ IsWebMethod web_method domain)
      × (generate_did world true web_method ≡ ok (tree.to_string (obj reply)))
      × IsKeyPair world true web_method reply)
    ⊎ ((reply : Fields) × (domain : Text) × IsWebMethod web_method domain
        × (text_eq domain [] ≡ false)
        × (generate_did world true web_method ≡ ok (tree.to_string (obj reply)))
        × IsWebPair world true domain reply)
    ⊎ ((e : Text) × IsWebMethod web_method [] × (generate_did world true web_method ≡ err e))
generate_did-cases_example = generate_did-cases world world-IsLawful true web_method method-is_utf8
