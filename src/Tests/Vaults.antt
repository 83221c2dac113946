-- ===== src/Tests/Vaults.antt =====
-- The vault at concrete payloads.
use did_rust.Prelude.{
  true, ◌+◌, ◌<◌, ◌≤◌, str, Bytes, length, take, drop, [], ◌∷◌, ◌++◌, none, some, ◌⊎◌, ok, err, ◌≡◌,
  refl,
}
use did_rust.Crypto.{cipher_operation}
use did_rust.Vault.{header_len, nonce_len, too_short, encrypt_vault_payload, decrypt_vault_payload}
use did_rust.Vault.RoundTrip.{decrypt-encrypt, encrypt-decrypt, decrypt_vault_payload-cases}
use did_rust.Tests.Fixture.Keys.{tagged, two_keys}
use did_rust.Tests.Fixture.World.{small, small-IsLawful}

abbrev kek : Bytes
kek = two_keys.signing_key_to_bytes true

abbrev nonce : Bytes
nonce = 9 ∷ 8 ∷ 7 ∷ 6 ∷ 5 ∷ 4 ∷ 3 ∷ 2 ∷ 1 ∷ 0 ∷ 1 ∷ 2 ∷ []

abbrev secret : Bytes
secret = 115 ∷ 51 ∷ []

abbrev vault : Bytes
vault = nonce ++ (secret ++ take 16 (drop 1 kek))

sealed : encrypt_vault_payload small nonce kek secret ≡ ok vault
unfolding encrypt_vault_payload
sealed = refl

decrypt-encrypt_example :
    (decrypt_vault_payload small kek vault ≡ ok secret)
    × (length vault ≡ length secret + header_len)
decrypt-encrypt_example = decrypt-encrypt small small-IsLawful nonce kek secret vault refl sealed

encrypt-decrypt_example :
    (encrypt_vault_payload small (take nonce_len vault) kek secret ≡ ok vault)
    × (length vault ≡ length secret + header_len)
encrypt-decrypt_example =
    encrypt-decrypt small small-IsLawful kek secret vault decrypt-encrypt_example.0

decrypt_vault_payload-cases_example :
    ((length nonce < header_len)
      × (decrypt_vault_payload small kek nonce ≡ err (too_short (length nonce))))
    ⊎ ((header_len ≤ length nonce)
        × (tagged.decrypt kek (take nonce_len nonce) (drop nonce_len nonce) ≡ none)
        × (decrypt_vault_payload small kek nonce
            ≡ err (cipher_operation (str "AEAD authentication failed"))))
    ⊎ ((m : Bytes) × (header_len ≤ length nonce)
        × (tagged.decrypt kek (take nonce_len nonce) (drop nonce_len nonce) ≡ some m)
        × (decrypt_vault_payload small kek nonce ≡ ok m))
decrypt_vault_payload-cases_example = decrypt_vault_payload-cases small kek nonce
