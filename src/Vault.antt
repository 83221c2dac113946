-- ===== src/Vault.antt =====
-- src/vault_crypto.rs: a payload sealed under a key, behind its nonce.
pub mod RoundTrip
use did_rust.Prelude.{
  ℕ, ◌+◌, str, decimal, Bytes, length, take, drop, ◌++◌, Option, none, some, Result, ok, err,
  or_panic, ◌>>=◌, ltb, leb, if◌then◌else◌,
}
use did_rust.Crates.Primitives.{Primitives}
use did_rust.Crypto.{CryptoError, invalid_input, cipher_operation}

abbrev pub nonce_len : ℕ
nonce_len = 12

abbrev pub tag_len : ℕ
tag_len = 16

abbrev pub header_len : ℕ
header_len = nonce_len + tag_len

-- `impl From<aead::Error> for CryptoError`, behind `?`
abbrev pub from_aead {ℓ} : {A : Type ℓ} → Option A → Result CryptoError A
from_aead none = err (cipher_operation (str "AEAD authentication failed"))
from_aead (some a) = ok a

-- `b.split_at(n)`, which panics past the end.
abbrev pub split_at : ℕ → Bytes → Option (Bytes × Bytes)
split_at n b = if leb n (length b) then some (take n b, drop n b) else none

-- `Nonce::from_slice`, which panics on any other length.
abbrev pub nonce_from_slice : Bytes → Option Bytes
nonce_from_slice b =
    if leb (length b) nonce_len then (if leb nonce_len (length b) then some b else none) else none

unfoldable pub too_short : ℕ → CryptoError
too_short n = invalid_input (
    str "ciphertext too short: expected at least "
    ++ (decimal header_len ++ (str " bytes, got " ++ decimal n)))

module _ (P : Primitives) where
  open P use {aead}

  -- The nonce is the one that `generate_nonce` drew.
  unfoldable pub encrypt_vault_payload : Bytes → Bytes → Bytes → Result CryptoError Bytes
  encrypt_vault_payload nonce kek plaintext = do
    sealed ← from_aead (aead.encrypt kek nonce plaintext)
    ok (nonce ++ sealed)

  unfoldable pub decrypt_vault_payload : Bytes → Bytes → Result CryptoError Bytes
  decrypt_vault_payload kek ciphertext_with_nonce =
      if ltb (length ciphertext_with_nonce) header_len
      then err (too_short (length ciphertext_with_nonce))
      else do
        parts ← or_panic (split_at nonce_len ciphertext_with_nonce)
        nonce ← or_panic (nonce_from_slice parts.0)
        from_aead (aead.decrypt kek nonce parts.1)
