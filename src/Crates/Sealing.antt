-- ===== src/Crates/Sealing.antt =====
-- chacha20poly1305
use did_rust.Prelude.{◌+◌, Bytes, IsBytes, length, ◌≡◌, Option, some}

-- `encrypt` and `decrypt` under a key of 32 bytes and a nonce of 12.
pub record Aead : Type 0 where
  pub encrypt : Bytes → Bytes → Bytes → Option Bytes
  pub decrypt : Bytes → Bytes → Bytes → Option Bytes

pub record IsAead (a : Aead) : Type 0 where
  pub decrypt-encrypt :
      (key nonce m sealed : Bytes)
      → a.encrypt key nonce m ≡ some sealed
      → a.decrypt key nonce sealed ≡ some m
  -- The tag is 16 bytes.
  pub length-encrypt :
      (key nonce m sealed : Bytes)
      → a.encrypt key nonce m ≡ some sealed
      → length sealed ≡ length m + 16
  -- What decrypts was sealed under the same key and nonce.
  pub encrypt-decrypt :
      (key nonce m sealed : Bytes)
      → a.decrypt key nonce sealed ≡ some m
      → a.encrypt key nonce m ≡ some sealed
  -- What is sealed are bytes.
  pub encrypt-IsBytes :
      (key nonce m : Bytes) {sealed : Bytes}
      → IsBytes m
      → a.encrypt key nonce m ≡ some sealed
      → IsBytes sealed
