-- ===== src/Wasm/Derives.antt =====
-- The replies of the two derivations of the WASM interface.
use did_rust.Prelude.{
  ℕ, Text, str, Bytes, length, none, some, Option-cases, ⊎-cases, Bool-cases, ◌⊎◌, inl, inr, ok,
  Result, err, ◌≡◌, ◌≢◌, ◌==◌, arith,
}
use did_rust.Services.{Services, IsLawful}
use did_rust.Crypto
use did_rust.Crypto.{DerivedIdentity, scalar_derivation_failed, fmt}
use did_rust.Crypto.Identity
use did_rust.Crypto.Identity.{BelongTogether}
use did_rust.Envelope.Shape.{
  IsDerived, IsDerivationError, derived_envelope-IsDerived, derivation_failed-IsDerivationError,
}
use did_rust.Wasm.{hex_key, derive_identity_from_prf}

module _ (S : Services) where
  open S use {primitives, json}
  open primitives use {hex}

  hex_key-eq-some :
      (s : Text) (key : Bytes)
      → hex_key S s ≡ some key
      → (hex.decode s ≡ inr key) × (length key ≡ 32)
  unfolding hex_key
  hex_key-eq-some s key h = elim (⊎-cases (hex.decode s)) [
    | inl (_, e) ↦ absurd (ground arith)
    | inr (v, e) ↦ elim (Bool-cases (length v == 32)) [
      | inl fits ↦ ground arith
      | inr other ↦ absurd (ground arith)
    ]
  ]

  -- A text that is not 32 bytes in hex.
  abbrev pub NoKey : Text → Type 0
  NoKey s = (key : Bytes) → hex.decode s ≡ inr key → length key ≢ 32

  hex_key-eq-none : (s : Text) → hex_key S s ≡ none → NoKey s
  unfolding hex_key
  hex_key-eq-none s h key decoded size = ground arith

  -- A reply with the identifier and the Nostr key of derived keys, and one with an error.
  abbrev pub Derives : Result ⊥ Text → Text → Text → Type 0
  Derives reply did nostr_pubkey_hex =
      (v : json.Value) × (reply ≡ ok (json.to_string v)) × IsDerived S v did nostr_pubkey_hex

  abbrev pub Fails : Result ⊥ Text → Text → Type 0
  Fails reply error =
      (v : json.Value) × (reply ≡ ok (json.to_string v)) × IsDerivationError S v error

  module _ (L : IsLawful S) (seed_hex : Text) (index : ℕ) where
    -- With lawful packages the `derive_identity_from_prf` of the WASM interface has one of three
    -- replies, each an object: an error if the seed is not 32 bytes in hex; or the identifier
    -- and the Nostr key of the identity derived from the seed, whose parts belong together; or
    -- the error of the derivation.
    pub derive_identity_from_prf-replies :
        (NoKey seed_hex
          × Fails
              (derive_identity_from_prf S seed_hex index)
              (str "Invalid PRF seed: expected 32-byte hex"))
        ⊎ ((seed : Bytes) × (i : DerivedIdentity) × (hex.decode seed_hex ≡ inr seed)
            × (length seed ≡ 32)
            × (Crypto.derive_identity_from_prf primitives seed index ≡ ok i)
            × BelongTogether primitives L.primitives i.ed25519_priv_bytes i.secp256k1_priv_bytes
                i.did i.nostr_pubkey_hex
            × Derives (derive_identity_from_prf S seed_hex index) i.did i.nostr_pubkey_hex)
        ⊎ ((seed : Bytes) × (hex.decode seed_hex ≡ inr seed)
            × (length seed ≡ 32)
            × (Crypto.derive_identity_from_prf primitives seed index ≡ err scalar_derivation_failed)
            × Fails
                (derive_identity_from_prf S seed_hex index)
                (str "Failed to derive a valid scalar from seed material"))
    unfolding derive_identity_from_prf fmt
    derive_identity_from_prf-replies = elim (Option-cases (hex_key S seed_hex)) [
      | inl e ↦ inl (
        hex_key-eq-none seed_hex e,
        (_, rw (e, derive_identity_from_prf), derivation_failed-IsDerivationError S L.json _),
      )
      | inr (seed, e) ↦
          let (decoded, size) = hex_key-eq-some seed_hex seed e in
          elim (Identity.derive_identity_from_prf-cases primitives L.primitives seed index) [
            | inl (i, derived, _, _, together) ↦ inr (
                inl (
                  seed,
                  i,
                  decoded,
                  size,
                  derived,
                  together,
                  (
                    _,
                    rw (e, derive_identity_from_prf, derived),
                    derived_envelope-IsDerived S L.json _ _,
                  ),
                ))
            | inr (_, failed) ↦ inr (
                inr (
                  seed,
                  decoded,
                  size,
                  failed,
                  (
                    _,
                    rw (e, derive_identity_from_prf, failed),
                    derivation_failed-IsDerivationError S L.json _,
                  ),
                ))
          ]
    ]
