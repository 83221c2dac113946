-- ===== src/Tests/Interfaces.antt =====
-- The C interface and the WASM interface at concrete arguments.
use did_rust.Prelude.{
  false, IsArray, Text, str, Bytes, length, take, drop, true, [], ◌∷◌, ◌++◌, some, inr, ◌⊎◌, ok,
  err, panic, ◌≡◌, ◌≢◌, refl, arith,
}
use did_rust.Prelude.Utf8.{is_utf8, from_utf8}
use did_rust.Crypto
use did_rust.Crypto.{DerivedIdentity, scalar_derivation_failed, fmt}
use did_rust.Crypto.Identity.{BelongTogether}
use did_rust.Vault
use did_rust.Envelope.Shape.{IsSealed, IsOpened}
use did_rust.Wasm.{
  generate_did, verify_vc, verify_vp, issue_vc, resolve_did, derive_identity_from_prf,
  derive_dependent_subkeys, encrypt_vault_payload, decrypt_vault_payload,
}
use did_rust.Wasm.Derives.{NoKey, Derives, Fails, derive_identity_from_prf-replies}
use did_rust.Wasm.RoundTrip.{decrypt_vault_payload-encrypt_vault_payload}
use did_rust.Wasm.Safety.{entry_points-ne-panic}
use did_rust.Ffi.{
  verify_vc_ffi, verify_vp_ffi, encrypt_vault_payload_ffi, decrypt_vault_payload_ffi,
}
use did_rust.Credential.Verdict.{IsVerdict}
use did_rust.Ffi.Verify.{HoldsAuthentic, HoldsAuthenticVp, verification_replies}
use did_rust.Ffi.Vault.{decrypt_vault_payload_ffi-encrypt_vault_payload_ffi}
use did_rust.Tests.Fixture.Keys.{two_keys}
use did_rust.Tests.Fixture.Codecs.{hexadecimal}
use did_rust.Tests.Fixture.Values.{Value, tree, tree-IsJson}
use did_rust.Tests.Fixture.World.{small, world, world-IsLawful, world-HasClient}

abbrev kek : Bytes
kek = two_keys.signing_key_to_bytes true

abbrev kek_hex : Text
kek_hex = hexadecimal.encode kek

abbrev nonce : Bytes
nonce = 9 ∷ 8 ∷ 7 ∷ 6 ∷ 5 ∷ 4 ∷ 3 ∷ 2 ∷ 1 ∷ 0 ∷ 1 ∷ 2 ∷ []

abbrev secret : Text
secret = 115 ∷ 51 ∷ []

abbrev vault : Bytes
vault = nonce ++ (secret ++ take 16 (drop 1 kek))

vault_sealed : Vault.encrypt_vault_payload small nonce kek secret ≡ ok vault
unfolding Vault.encrypt_vault_payload
vault_sealed = refl

secret_text : is_utf8 secret ≡ true
unfolding is_utf8
secret_text = refl

nonce-IsArray : IsArray 12 nonce
nonce-IsArray = record { size = refl; bytes = omega arith }

decrypt_vault_payload-encrypt_vault_payload_example :
    (v w : Value) × (ciphertext_hex plaintext_hex : Text) × (encrypt_vault_payload world nonce
        kek_hex secret
      ≡ ok (tree.to_string v))
    × IsSealed world v ciphertext_hex
    × (decrypt_vault_payload world kek_hex ciphertext_hex ≡ ok (tree.to_string w))
    × IsOpened world w (some secret) plaintext_hex
    × (hexadecimal.decode plaintext_hex ≡ inr secret)
decrypt_vault_payload-encrypt_vault_payload_example =
    decrypt_vault_payload-encrypt_vault_payload world world-IsLawful nonce kek vault kek_hex secret
      refl refl nonce-IsArray secret_text vault_sealed

derive_identity_from_prf-replies_example :
    (NoKey world kek_hex
      × Fails world
          (derive_identity_from_prf world kek_hex 7)
          (str "Invalid PRF seed: expected 32-byte hex"))
    ⊎ ((seed : Bytes) × (i : DerivedIdentity) × (hexadecimal.decode kek_hex ≡ inr seed)
        × (length seed ≡ 32)
        × (Crypto.derive_identity_from_prf small seed 7 ≡ ok i)
        × BelongTogether small world-IsLawful.primitives i.ed25519_priv_bytes i.secp256k1_priv_bytes
            i.did i.nostr_pubkey_hex
        × Derives world (derive_identity_from_prf world kek_hex 7) i.did i.nostr_pubkey_hex)
    ⊎ ((seed : Bytes) × (hexadecimal.decode kek_hex ≡ inr seed)
        × (length seed ≡ 32)
        × (Crypto.derive_identity_from_prf small seed 7 ≡ err scalar_derivation_failed)
        × Fails world
            (derive_identity_from_prf world kek_hex 7)
            (str "Failed to derive a valid scalar from seed material"))
derive_identity_from_prf-replies_example =
    derive_identity_from_prf-replies world world-IsLawful kek_hex 7

entry_points-ne-panic_example :
    (generate_did world true kek_hex ≢ panic)
    × (verify_vc world 3 kek_hex ≢ panic)
    × (verify_vp world (λ i. i) kek_hex ≢ panic)
    × (issue_vc world kek_hex secret secret ≢ panic)
    × (resolve_did world secret ≢ panic)
    × (derive_identity_from_prf world kek_hex 5 ≢ panic)
    × (derive_dependent_subkeys world kek_hex 5 ≢ panic)
    × (encrypt_vault_payload world nonce secret kek_hex ≢ panic)
    × (decrypt_vault_payload world secret kek_hex ≢ panic)
entry_points-ne-panic_example =
    entry_points-ne-panic world world-IsLawful world-HasClient true 3 (λ i. i) nonce 5 kek_hex
      secret secret secret_text

decrypt_vault_payload_ffi-encrypt_vault_payload_ffi_example :
    (v w : Value) × (ciphertext_hex plaintext_hex : Text) × (ciphertext : Bytes)
    × (encrypt_vault_payload_ffi world nonce (some (kek ++ secret)) (some (secret ++ kek)) 2
        ≡ ok (some (tree.to_string v)))
    × IsSealed world v ciphertext_hex
    × (hexadecimal.decode ciphertext_hex ≡ inr ciphertext)
    × (decrypt_vault_payload_ffi world (some (kek ++ secret)) (some ciphertext) (length ciphertext)
        ≡ ok (some (tree.to_string w)))
    × IsOpened world w (from_utf8 secret) plaintext_hex
    × (hexadecimal.decode plaintext_hex ≡ inr secret)
decrypt_vault_payload_ffi-encrypt_vault_payload_ffi_example =
    decrypt_vault_payload_ffi-encrypt_vault_payload_ffi world world-IsLawful nonce (kek ++ secret)
      (secret ++ kek) vault 2 (omega arith) (omega arith) nonce-IsArray (omega arith) vault_sealed

verification_replies_example :
    ((v : Value) × (verify_vc_ffi world 3 (some secret) ≡ ok (some (tree.to_string v)))
      × ((HoldsAuthentic world 3 (some secret) × IsVerdict world v true [])
          ⊎ ((e : Text) × (¬ HoldsAuthentic world 3 (some secret))
              × (e ≢ [])
              × IsVerdict world v false e)))
    × ((v : Value) × (verify_vp_ffi world (λ i. i) (some secret) ≡ ok (some (tree.to_string v)))
        × ((HoldsAuthenticVp world (λ i. i) (some secret) × IsVerdict world v true [])
            ⊎ ((e : Text) × (¬ HoldsAuthenticVp world (λ i. i) (some secret))
                × (e ≢ [])
                × IsVerdict world v false e)))
verification_replies_example =
    verification_replies world tree-IsJson world-HasClient 3 (λ i. i) (some secret)
