-- ===== src/Tests/Fixture/Codecs.antt =====
-- A codec: two hexadecimal digits for each byte.
use did_rust.Prelude.{
  ℕ, ◌+◌, ◌-◌, ◌/◌, ◌%◌, ◌<◌, ◌*◌, Text, str, Bytes, IsBytes, has_nul, text_eq, true, false, [],
  ◌∷◌, ◌⊎◌, inl, inr, ◌≡◌, refl, leb, ltb, if◌then◌else◌, arith,
}
use did_rust.Prelude.Utf8.{is_utf8}
use did_rust.Crates.Codec.{Codec, IsCodec}

abbrev digit : ℕ → ℕ
digit n = if ltb n 10 then 48 + n else 87 + n

abbrev value : ℕ → ℕ
value c = if leb c 57 then c - 48 else c - 87

abbrev encode : Bytes → Text
encode [] = []
encode (b ∷ rest) = digit (b / 16) ∷ digit (b % 16) ∷ encode rest

abbrev cons : ℕ → Text ⊎ Bytes → Text ⊎ Bytes
cons b (inl e) = inl e
cons b (inr rest) = inr (b ∷ rest)

abbrev decode : Text → Text ⊎ Bytes
decode [] = inr []
decode (c ∷ []) = inl (str "odd length")
decode (c ∷ d ∷ rest) = cons ((16 * value c + value d) % 256) (decode rest)

value-digit : (n : ℕ) → n < 16 → value (digit n) ≡ n
value-digit n h = ground arith

decode-encode : (b : Bytes) → IsBytes b → decode (encode b) ≡ inr b
decode-encode [] h = refl
decode-encode (b ∷ rest) h = ground (
  arith,
  decode-encode rest h.1,
  value-digit (b / 16) (omega (arith, h.0)),
  value-digit (b % 16) (omega arith),
)

encode-is_utf8 : (b : Bytes) → IsBytes b → is_utf8 (encode b) ≡ true
unfolding is_utf8
encode-is_utf8 [] h = refl
encode-is_utf8 (b ∷ rest) h = ground (arith, encode-is_utf8 rest h.1, h.0)

encode-has_nul : (b : Bytes) → IsBytes b → has_nul (encode b) ≡ false
encode-has_nul [] h = refl
encode-has_nul (b ∷ rest) h = ground (arith, encode-has_nul rest h.1)

encode_not_empty : (x : ℕ) (b : Bytes) → IsBytes (x ∷ b) → text_eq (encode (x ∷ b)) [] ≡ false
unfolding text_eq
encode_not_empty x b h = refl

cons-IsBytes :
    (n : ℕ) (r : Text ⊎ Bytes)
    → n < 256
    → ((b : Bytes) → r ≡ inr b → IsBytes b)
    → {b : Bytes} → cons n r ≡ inr b
    → IsBytes b
cons-IsBytes n (inl e) h next same = cc
cons-IsBytes n (inr rest) h next {b = []} same = tt
cons-IsBytes n (inr rest) h next {b = c ∷ b} same = (ground (arith, h), next b (cc))

decode-IsBytes : (t : Text) {b : Bytes} → decode t ≡ inr b → IsBytes b
decode-IsBytes [] {b = []} h = tt
decode-IsBytes [] {b = c ∷ b} h = cc
decode-IsBytes (c ∷ []) h = cc
decode-IsBytes (c ∷ d ∷ rest) h =
    cons-IsBytes _ (decode rest) (omega arith) (λ b e. decode-IsBytes rest e) h

abbrev pub hexadecimal : Codec
hexadecimal = record { encode = encode; decode = decode }

pub hexadecimal-IsCodec : IsCodec hexadecimal
hexadecimal-IsCodec = record {
  decode-encode = decode-encode;
  encode-is_utf8 = encode-is_utf8;
  decode-IsBytes = decode-IsBytes;
  encode-has_nul = encode-has_nul;
  encode_not_empty = encode_not_empty;
}
