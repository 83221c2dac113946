-- ===== src/Wasm/RoundTrip.antt =====
-- A payload sealed and opened through the WASM interface, in hex.
use did_rust.Prelude.{Text, Bytes, IsArray, length, true, some, inr, ok, ◌≡◌, ==_iff}
use did_rust.Prelude.Utf8.{is_utf8, is_utf8-IsBytes}
use did_rust.Services.{Services, IsLawful}
use did_rust.Vault
use did_rust.Vault.RoundTrip
use did_rust.Envelope.{sealed_envelope, opened_envelope}
use did_rust.Envelope.Shape.{IsSealed, IsOpened, sealed_envelope-IsSealed, opened_envelope-IsOpened}
use did_rust.Wasm.{hex_key, open_with, encrypt_vault_payload, decrypt_vault_payload}

module _ (S : Services) where
  open S use {primitives, json}
  open primitives use {hex}

  pub hex_key_lem :
      (s : Text) (key : Bytes) → hex.decode s ≡ inr key → length key ≡ 32 → hex_key S s ≡ some key
  unfolding hex_key
  hex_key_lem s key decoded size = rw (decoded, hex_key, (==_iff (length key) 32).1 size)

  -- With lawful packages, let the key decode from hex to 32 bytes, the nonce be 12 bytes, the
  -- payload be valid UTF-8, and it seal under them. Then the `encrypt_vault_payload` of the WASM
  -- interface replies with an object that has a ciphertext in hex, and its
  -- `decrypt_vault_payload` on that hex and the same key replies with an object that has the
  -- payload, as a text and in hex.
  pub decrypt_vault_payload-encrypt_vault_payload :
      IsLawful S
      → (nonce kek sealed : Bytes) (kek_hex plaintext : Text) → hex.decode kek_hex ≡ inr kek
      → length kek ≡ 32
      → IsArray 12 nonce
      → is_utf8 plaintext ≡ true
      → Vault.encrypt_vault_payload primitives nonce kek plaintext ≡ ok sealed
      → (v w : json.Value) × (ciphertext_hex plaintext_hex : Text) × (encrypt_vault_payload S nonce
            kek_hex plaintext
          ≡ ok (json.to_string v))
        × IsSealed S v ciphertext_hex
        × (decrypt_vault_payload S kek_hex ciphertext_hex ≡ ok (json.to_string w))
        × IsOpened S w (some plaintext) plaintext_hex
        × (hex.decode plaintext_hex ≡ inr plaintext)
  unfolding encrypt_vault_payload decrypt_vault_payload open_with
  decrypt_vault_payload-encrypt_vault_payload L nonce kek sealed kek_hex plaintext decoded size n
        text e =
      let key = hex_key_lem kek_hex kek decoded size in
      let bytes = is_utf8-IsBytes plaintext text in
      let (opened, _) =
        Vault.RoundTrip.decrypt-encrypt primitives L.primitives nonce kek plaintext sealed n.size
          e in
      let b =
        Vault.RoundTrip.encrypt_vault_payload-IsBytes primitives L.primitives nonce kek plaintext
          sealed n.bytes bytes e in
      (
        sealed_envelope json (hex.encode sealed),
        opened_envelope json (some plaintext) (hex.encode plaintext),
        hex.encode sealed,
        hex.encode plaintext,
        rw (key, encrypt_vault_payload, e),
        sealed_envelope-IsSealed S L.json (hex.encode sealed),
        rw (
          key,
          decrypt_vault_payload,
          L.primitives.hex.decode-encode sealed b,
          open_with,
          opened,
          text,
        ),
        opened_envelope-IsOpened S L.json (some plaintext) (hex.encode plaintext),
        L.primitives.hex.decode-encode plaintext bytes,
      )
