-- ===== src/Crypto/Identity.antt =====
-- The derived identities as wholes: when they are derived, and that their parts belong together.
use did_rust.Prelude.{
  Bool, ◌<◌, ℕ, ◌≤◌, Text, str, Bytes, IsArray, List, subst, sym, length, take, drop, ◌++◌, [], ◌∷◌,
  ok, err, ◌≡◌, refl, ◌⊎◌, inl, inr, some, Option-cases, arith, true, false,
}
use did_rust.Prelude.Words.{to_le_bytes}
use did_rust.Crates.Primitives.{Primitives, IsLawful}
use did_rust.Crypto.Separation.{derived-digest, dependent_ed25519}
use did_rust.Crates.Outside.{Http}
use did_rust.Resolver.{DidDocument, Network, resolve, key_document}
use did_rust.Resolver.Key.{multikey, resolve-multikey}
use did_rust.Crypto.{
  scalar_derivation_failed, slice, is_valid, key_did, nostr_pubkey, DerivedIdentity,
  DependentDerivedKeypair, derive_secp256k1_scalar, derive_dependent_secp256k1_scalar,
  derive_ed25519_did, derive_nostr_keypair, derive_identity_from_prf, derive_dependent_subkeys,
  dependent_ed_seed, dependent_ed25519_domain, sha256_concat,
}
use did_rust.Crypto.Attempts.{
  Searched-cases, sha256_concat-digest, digest, nostr_preimage, dependent_nostr_preimage,
  derive_secp256k1_scalar-Searched, derive_dependent_secp256k1_scalar-Searched,
}

slice_lem : (b : Bytes) → 33 ≤ length b → slice 1 33 b ≡ some (take 32 (drop 1 b))
slice_lem b h = ground arith

-- The resolution of identifiers with the packages `P`, over any network.
abbrev pub network_of : Primitives → Bool → Http DidDocument → Network
network_of P http_resolver http = record {
  bs58 = P.bs58;
  http_resolver = http_resolver;
  http = http;
}

module _ (P : Primitives) (L : IsLawful P) where
  open P use {ed25519, sha256, secp256k1, hex}

  -- The x coordinate of the point of a valid scalar, in hex.
  abbrev pub x_only_hex : secp256k1.SecretKey → Text
  x_only_hex key = hex.encode (take 32 (drop 1 (secp256k1.encoded_point key)))

  -- A valid scalar has a public key, so the second check of the scalar never fails.
  pub nostr_pubkey-valid :
      (b : Bytes)
      → is_valid P b ≡ true
      → (key : secp256k1.SecretKey) × (secp256k1.secret_key b ≡ some key)
        × (nostr_pubkey P b ≡ ok (x_only_hex key))
  unfolding nostr_pubkey
  nostr_pubkey-valid b h = elim (Option-cases (secp256k1.secret_key b)) [
    | inl e ↦ absurd (ground arith)
    | inr (key, e) ↦
        let size = (L.secp256k1.encoded_point-IsArray key).size in
        (key, e, rw (e, slice_lem (secp256k1.encoded_point key) (omega arith)))
  ]

  -- The bytes of the public key of a signing key's bytes.
  abbrev pub public_bytes : Bytes → Bytes
  public_bytes priv =
      ed25519.verifying_key_as_bytes (ed25519.verifying_key (ed25519.signing_key priv))

  -- What makes the parts of an identity belong together: both secrets are 32 bytes, the identifier
  -- resolves to the public key of the Ed25519 secret, and the Nostr key is that of the secp256k1
  -- secret.
  pub record BelongTogether (ed_priv secp_priv : Bytes) (did nostr : Text) : Type 1 where
    pub ed_array : IsArray 32 ed_priv
    pub secp_array : IsArray 32 secp_priv
    pub resolves :
        (http_resolver : Bool) (http : Http DidDocument)
        → resolve (network_of P http_resolver http) did
          ≡ ok (
              key_document did
                (str "z" ++ P.bs58.encode (multikey (public_bytes ed_priv)))
                (P.bs58.encode (public_bytes ed_priv)))
    pub nostr_key :
        (key : secp256k1.SecretKey) × (secp256k1.secret_key secp_priv ≡ some key)
        × (nostr ≡ x_only_hex key)

  sha256_concat-IsArray :
      (b : Bytes) (parts : List Bytes) → IsArray 32 (sha256_concat P (b ∷ parts))
  sha256_concat-IsArray b parts =
      subst (IsArray 32) (sym (sha256_concat-digest P L b parts)) (L.sha256.finalize-IsArray _)

  dependent_ed_seed-IsArray :
      (seed : Bytes) (index : ℕ) → IsArray 32 (dependent_ed_seed P seed index)
  unfolding dependent_ed_seed
  dependent_ed_seed-IsArray seed index = L.sha256.finalize-IsArray _

  key_did-resolves :
      (priv : Bytes) (http_resolver : Bool) (http : Http DidDocument)
      → resolve (network_of P http_resolver http) (key_did P priv)
        ≡ ok (
            key_document
              (key_did P priv)
              (str "z" ++ P.bs58.encode (multikey (public_bytes priv)))
              (P.bs58.encode (public_bytes priv)))
  unfolding key_did
  key_did-resolves priv b http =
      resolve-multikey (network_of P b http) L.bs58 (public_bytes priv)
        (L.ed25519.verifying_key_as_bytes-IsArray _)

  -- With lawful packages every seed and index have one of two outcomes, and none is a panic.
  -- Either `derive_identity_from_prf` returns an identity whose secrets are 32 bytes each, the
  -- Ed25519 one the digest of the seed and the index and the secp256k1 one the scalar derived
  -- from them, whose identifier resolves to the public key of the first over any network, and
  -- whose Nostr key is that of the second; or none of the 256 candidates is a valid scalar, and
  -- it returns the error that says so.
  pub derive_identity_from_prf-cases :
      (seed : Bytes) (index : ℕ)
      → ((i : DerivedIdentity) × (derive_identity_from_prf P seed index ≡ ok i)
          × (i.ed25519_priv_bytes ≡ digest P (seed ++ (to_le_bytes index ++ [])))
          × (derive_secp256k1_scalar P seed index ≡ ok i.secp256k1_priv_bytes)
          × BelongTogether i.ed25519_priv_bytes i.secp256k1_priv_bytes i.did i.nostr_pubkey_hex)
        ⊎ (((k : ℕ) → k < 256 → is_valid P (digest P (nostr_preimage seed index k)) ≡ false)
            × (derive_identity_from_prf P seed index ≡ err scalar_derivation_failed))
  unfolding derive_identity_from_prf derive_ed25519_did derive_nostr_keypair
  derive_identity_from_prf-cases seed index =
      elim (Searched-cases P _ 0 256 (derive_secp256k1_scalar-Searched P L seed index)) [
        | inr (all, e) ↦ inr (λ k h. all k (omega arith) h, rw e)
        | inl (k, lo, hi, valid, e) ↦
            let secp_priv = digest P (nostr_preimage seed index k) in
            let (key, valid_key, pubkey) = nostr_pubkey-valid secp_priv valid in
            let ed_priv = sha256_concat P (seed ∷ to_le_bytes index ∷ []) in
            inl (
              record {
                did = key_did P ed_priv;
                nostr_pubkey_hex = x_only_hex key;
                ed25519_priv_bytes = ed_priv;
                secp256k1_priv_bytes = secp_priv;
              },
              rw (e, pubkey),
              sha256_concat-digest P L seed (to_le_bytes index ∷ []),
              e,
              record {
                ed_array = sha256_concat-IsArray seed (to_le_bytes index ∷ []);
                secp_array = L.sha256.finalize-IsArray _;
                resolves = key_did-resolves ed_priv;
                nostr_key = (key, valid_key, refl);
              },
            )
      ]

  -- With lawful packages every seed and index have one of two outcomes, and none is a panic.
  -- Either `derive_dependent_subkeys` returns keys whose secrets are 32 bytes each, the Ed25519
  -- one the digest of the seed, the dependents' domain and the index and the secp256k1 one the
  -- dependent scalar derived from them, whose identifier resolves to the public key of the first
  -- over any network, and whose Nostr key is that of the second; or none of the 256 candidates
  -- is a valid scalar, and it returns the error that says so.
  pub derive_dependent_subkeys-cases :
      (seed : Bytes) (index : ℕ)
      → ((d : DependentDerivedKeypair) × (derive_dependent_subkeys P seed index ≡ ok d)
          × (d.ed25519_signing_key_bytes
              ≡ digest P (seed ++ (dependent_ed25519_domain ++ to_le_bytes index)))
          × (derive_dependent_secp256k1_scalar P seed index ≡ ok d.secp256k1_signing_key_bytes)
          × BelongTogether d.ed25519_signing_key_bytes d.secp256k1_signing_key_bytes d.did
              d.nostr_pubkey_hex)
        ⊎ (((k : ℕ)
              → k < 256
              → is_valid P (digest P (dependent_nostr_preimage seed index k)) ≡ false)
            × (derive_dependent_subkeys P seed index ≡ err scalar_derivation_failed))
  unfolding derive_dependent_subkeys
  derive_dependent_subkeys-cases seed index =
      elim (Searched-cases P _ 0 256 (derive_dependent_secp256k1_scalar-Searched P L seed index)) [
        | inr (all, e) ↦ inr (λ k h. all k (omega arith) h, rw e)
        | inl (k, lo, hi, valid, e) ↦
            let secp_priv = digest P (dependent_nostr_preimage seed index k) in
            let (key, valid_key, pubkey) = nostr_pubkey-valid secp_priv valid in
            let ed_priv = dependent_ed_seed P seed index in
            inl (
              record {
                ed25519_signing_key_bytes = ed_priv;
                did = key_did P ed_priv;
                secp256k1_signing_key_bytes = secp_priv;
                nostr_pubkey_hex = x_only_hex key;
              },
              rw (e, pubkey),
              derived-digest P L dependent_ed25519 seed index,
              e,
              record {
                ed_array = dependent_ed_seed-IsArray seed index;
                secp_array = L.sha256.finalize-IsArray _;
                resolves = key_did-resolves ed_priv;
                nostr_key = (key, valid_key, refl);
              },
            )
      ]
