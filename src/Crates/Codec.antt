-- ===== src/Crates/Codec.antt =====
-- The `encode` and `decode` of bs58 and of hex.
use did_rust.Prelude.{ℕ, Text, Bytes, IsBytes, has_nul, text_eq, [], ◌∷◌, ◌≡◌, ◌⊎◌, inr, false}
use did_rust.Prelude.Utf8.{is_utf8}
use mathlib.Core.Bool.{true}

pub record Codec : Type 0 where
  pub encode : Bytes → Text
  pub decode : Text → Text ⊎ Bytes

-- What is encoded decodes to the same bytes, and is a text without a NUL, which is not empty unless
-- there are no bytes; what is decoded are bytes.
pub record IsCodec (c : Codec) : Type 0 where
  pub decode-encode : (b : Bytes) → IsBytes b → c.decode (c.encode b) ≡ inr b
  pub encode-is_utf8 : (b : Bytes) → IsBytes b → is_utf8 (c.encode b) ≡ true
  pub decode-IsBytes : (t : Text) {b : Bytes} → c.decode t ≡ inr b → IsBytes b
  pub encode-has_nul : (b : Bytes) → IsBytes b → has_nul (c.encode b) ≡ false
  pub encode_not_empty :
      (x : ℕ) (b : Bytes) → IsBytes (x ∷ b) → text_eq (c.encode (x ∷ b)) [] ≡ false
