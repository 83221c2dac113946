-- ===== src/Ffi/Vault.antt =====
-- A payload sealed and opened through the C interface.
use did_rust.Prelude.{
  ℕ, ◌≤◌, Text, str, Bytes, length, take, some, ok, ◌≡◌, refl, ap, [], ◌∷◌, arith, inr, IsArray,
  IsBytes, length-take,
}
use did_rust.Prelude.Utf8.{from_utf8}
use did_rust.Services.{Services, IsLawful}
use did_rust.Vault.{nonce_len, encrypt_vault_payload}
use did_rust.Vault.RoundTrip
use did_rust.Envelope.{sealed_envelope, opened_envelope}
use did_rust.Envelope.Shape.{IsSealed, IsOpened, sealed_envelope-IsSealed, opened_envelope-IsOpened}
use did_rust.Ffi.Strings.{c_string-to_string}
use did_rust.Ffi.{
  read_byte_slice, read_vault_input, seal_input, open_input, encrypt_vault_payload_ffi,
  decrypt_vault_payload_ffi,
}

take_all : (b : Bytes) → take (length b) b ≡ b
take_all [] = refl
take_all (x ∷ b) = ap (λ (t : Bytes). x ∷ t) (take_all b)

module _ (S : Services) where
  open S use {primitives, json}
  open primitives use {hex}

  read_vault_input_lem :
      (what : Text) (kek_memory memory : Bytes) (len : ℕ)
      → 32 ≤ length kek_memory
      → len ≤ length memory
      → read_vault_input S what (some kek_memory) (some memory) len
        ≡ ok (take 32 kek_memory, take len memory)
  unfolding read_vault_input read_byte_slice
  read_vault_input_lem what kek_memory memory len h l =
      let size = length-take 32 kek_memory h in ground arith

  -- With lawful packages, let 32 bytes be readable from the pointer to the key and `len` bytes
  -- from the pointer to the payload, the nonce be 12 bytes, and the payload be bytes that seal
  -- under them. Then `encrypt_vault_payload_ffi` replies with an object that has a ciphertext in
  -- hex, and `decrypt_vault_payload_ffi` on the bytes of that hex and the same key replies with
  -- an object that has the payload, in hex and, if it is valid UTF-8, as a text.
  pub decrypt_vault_payload_ffi-encrypt_vault_payload_ffi :
      IsLawful S
      → (nonce kek_memory memory sealed : Bytes) (len : ℕ) → 32 ≤ length kek_memory
      → len ≤ length memory
      → IsArray nonce_len nonce
      → IsBytes (take len memory)
      → encrypt_vault_payload primitives nonce (take 32 kek_memory) (take len memory) ≡ ok sealed
      → (v w : json.Value) × (ciphertext_hex plaintext_hex : Text) × (ciphertext : Bytes)
        × (encrypt_vault_payload_ffi S nonce (some kek_memory) (some memory) len
            ≡ ok (some (json.to_string v)))
        × IsSealed S v ciphertext_hex
        × (hex.decode ciphertext_hex ≡ inr ciphertext)
        × (decrypt_vault_payload_ffi S (some kek_memory) (some ciphertext) (length ciphertext)
            ≡ ok (some (json.to_string w)))
        × IsOpened S w (from_utf8 (take len memory)) plaintext_hex
        × (hex.decode plaintext_hex ≡ inr (take len memory))
  unfolding encrypt_vault_payload_ffi decrypt_vault_payload_ffi seal_input open_input
  decrypt_vault_payload_ffi-encrypt_vault_payload_ffi L nonce kek_memory memory sealed len k l n b
        e =
      let payload = take len memory in
      let kek = take 32 kek_memory in
      let (opened, _) =
        RoundTrip.decrypt-encrypt primitives L.primitives nonce kek payload sealed n.size e in
      let bytes =
        RoundTrip.encrypt_vault_payload-IsBytes primitives L.primitives nonce kek payload sealed
          n.bytes b e in
      (
        sealed_envelope json (hex.encode sealed),
        opened_envelope json (from_utf8 payload) (hex.encode payload),
        hex.encode sealed,
        hex.encode payload,
        sealed,
        rw (
          read_vault_input_lem (str "plaintext") kek_memory memory len k l,
          encrypt_vault_payload_ffi,
          seal_input,
          e,
          c_string-to_string json L.json,
        ),
        sealed_envelope-IsSealed S L.json (hex.encode sealed),
        L.primitives.hex.decode-encode sealed bytes,
        rw (
          read_vault_input_lem (str "ciphertext") kek_memory sealed (length sealed) k (omega arith),
          decrypt_vault_payload_ffi,
          open_input,
          take_all sealed,
          opened,
          c_string-to_string json L.json,
        ),
        opened_envelope-IsOpened S L.json (from_utf8 payload) (hex.encode payload),
        L.primitives.hex.decode-encode payload b,
      )
