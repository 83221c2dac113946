-- ===== src/Crypto.antt =====
-- src/crypto.rs: keys and identifiers derived from a seed. What `Zeroizing` wipes is not modelled.
pub mod Identity
pub mod Separation
pub mod Attempts
use mathlib.Core.List.{foldl}
use did_rust.Prelude.{
  ℕ, zero, suc, ◌+◌, ◌-◌, Text, str, Bytes, length, take, drop, Bool, true, false, List, [], ◌∷◌,
  ◌++◌, Option, none, some, Result, ok, err, ok_or, or_panic, ◌>>=◌, leb, ltb, if◌then◌else◌,
}
use did_rust.Prelude.Words.{to_le_bytes}
use did_rust.Crates.Primitives.{Primitives}

abbrev pub nostr_domain : Bytes
unfolding str
nostr_domain = str "secp256k1-nostr"

abbrev pub dependent_ed25519_domain : Bytes
unfolding str
dependent_ed25519_domain = str "iyou/dependent/"

abbrev pub dependent_nostr_domain : Bytes
unfolding str
dependent_nostr_domain = str "secp256k1-nostr/dependent/"

abbrev pub ed25519_multicodec : Bytes
ed25519_multicodec = 0xed ∷ 0x01 ∷ []

abbrev pub scalar_attempts : ℕ
scalar_attempts = 255

pub data CryptoError : Type 0 where
  scalar_derivation_failed : CryptoError
  invalid_input : Text → CryptoError
  cipher_operation : Text → CryptoError

-- `impl Display for CryptoError`
unfoldable pub fmt : CryptoError → Text
fmt scalar_derivation_failed = str "Failed to derive a valid scalar from seed material"
fmt (invalid_input msg) = str "Invalid input: " ++ msg
fmt (cipher_operation msg) = str "Cipher operation failed: " ++ msg

pub record DerivedIdentity : Type 0 where
  pub did : Text
  pub nostr_pubkey_hex : Text
  pub ed25519_priv_bytes : Bytes
  pub secp256k1_priv_bytes : Bytes

pub record DependentDerivedKeypair : Type 0 where
  pub ed25519_signing_key_bytes : Bytes
  pub did : Text
  pub secp256k1_signing_key_bytes : Bytes
  pub nostr_pubkey_hex : Text

-- `&b[lo..hi]`, which panics past the end.
abbrev pub slice : ℕ → ℕ → Bytes → Option Bytes
slice lo hi b =
    if leb lo hi
    then (if leb hi (length b) then some (take (hi - lo) (drop lo b)) else none)
    else none

module _ (P : Primitives) where
  open P use {bs58, hex, ed25519, sha256, secp256k1}

  unfoldable pub sha256_concat : List Bytes → Bytes
  sha256_concat parts = sha256.finalize (foldl sha256.update sha256.new parts)

  -- The candidate of one round, `inputs` with the attempt behind it but in the first round.
  unfoldable pub scalar_candidate : Bytes → ℕ → ℕ → Bytes
  scalar_candidate root_seed index attempt =
      let inputs = nostr_domain ∷ root_seed ∷ to_le_bytes index ∷ [] in
      sha256_concat (if ltb 0 attempt then inputs ++ (attempt ∷ []) ∷ [] else inputs)

  unfoldable pub dependent_candidate : Bytes → ℕ → ℕ → Bytes
  dependent_candidate root_seed index attempt =
      let hasher = sha256.update sha256.new dependent_nostr_domain in
      let hasher' = sha256.update (sha256.update hasher root_seed) (to_le_bytes index) in
      sha256.finalize (if ltb 0 attempt then sha256.update hasher' (attempt ∷ []) else hasher')

  abbrev pub is_valid : Bytes → Bool
  is_valid candidate = elim (secp256k1.secret_key candidate) [ none ↦ false | some _ ↦ true ]

  -- The loop `for attempt in 0..=SCALAR_ATTEMPTS`, on the rounds left.
  unfoldable pub attempts : (ℕ → Bytes) → ℕ → ℕ → Result CryptoError Bytes
  attempts candidate zero attempt = err scalar_derivation_failed
  attempts candidate (suc left) attempt =
      let rest = attempts candidate left (suc attempt) in
      if is_valid (candidate attempt) then ok (candidate attempt) else rest

  unfoldable pub derive_secp256k1_scalar : Bytes → ℕ → Result CryptoError Bytes
  derive_secp256k1_scalar root_seed index =
      attempts (scalar_candidate root_seed index) (scalar_attempts + 1) 0

  unfoldable pub derive_dependent_secp256k1_scalar : Bytes → ℕ → Result CryptoError Bytes
  derive_dependent_secp256k1_scalar root_seed index =
      attempts (dependent_candidate root_seed index) (scalar_attempts + 1) 0

  -- The identifier of the public key of a signing key's bytes.
  unfoldable pub key_did : Bytes → Text
  key_did priv_bytes =
      let public = ed25519.verifying_key (ed25519.signing_key priv_bytes) in
      let multicodec = ed25519_multicodec ++ ed25519.verifying_key_as_bytes public in
      str "did:key:z" ++ bs58.encode multicodec

  unfoldable pub derive_ed25519_did : Bytes → ℕ → Result CryptoError (Text × Bytes)
  derive_ed25519_did root_seed index =
      let priv_bytes = sha256_concat (root_seed ∷ to_le_bytes index ∷ []) in
      ok (key_did priv_bytes, priv_bytes)

  -- The x coordinate of the public key of a scalar, in hex.
  unfoldable pub nostr_pubkey : Bytes → Result CryptoError Text
  nostr_pubkey priv_bytes = do
    secret_key ← ok_or scalar_derivation_failed (secp256k1.secret_key priv_bytes)
    x_only ← or_panic (slice 1 33 (secp256k1.encoded_point secret_key))
    ok (hex.encode x_only)

  unfoldable pub derive_nostr_keypair : Bytes → ℕ → Result CryptoError (Text × Bytes)
  derive_nostr_keypair root_seed index = do
    priv_bytes ← derive_secp256k1_scalar root_seed index
    pubkey ← nostr_pubkey priv_bytes
    ok (pubkey, priv_bytes)

  unfoldable pub derive_identity_from_prf : Bytes → ℕ → Result CryptoError DerivedIdentity
  derive_identity_from_prf prf_seed index = do
    ed ← derive_ed25519_did prf_seed index
    nostr ← derive_nostr_keypair prf_seed index
    ok (record {
      did = ed.0;
      nostr_pubkey_hex = nostr.0;
      ed25519_priv_bytes = ed.1;
      secp256k1_priv_bytes = nostr.1;
    })

  unfoldable pub dependent_ed_seed : Bytes → ℕ → Bytes
  dependent_ed_seed root_seed dependent_index =
      let hasher = sha256.update (sha256.update sha256.new root_seed) dependent_ed25519_domain in
      sha256.finalize (sha256.update hasher (to_le_bytes dependent_index))

  unfoldable pub derive_dependent_subkeys : Bytes → ℕ → Result CryptoError DependentDerivedKeypair
  derive_dependent_subkeys root_seed dependent_index = do
    let ed_seed = dependent_ed_seed root_seed dependent_index
    let did = key_did ed_seed
    secp_scalar ← derive_dependent_secp256k1_scalar root_seed dependent_index
    nostr_pubkey_hex ← nostr_pubkey secp_scalar
    ok (record {
      ed25519_signing_key_bytes = ed_seed;
      did = did;
      secp256k1_signing_key_bytes = secp_scalar;
      nostr_pubkey_hex = nostr_pubkey_hex;
    })
