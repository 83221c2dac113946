-- ===== src/Tests/Fixture/Keys.antt =====
-- Two signing keys, a checksum for a hash, scalars that are not 0, and a cipher that only seals.
use did_rust.Prelude.{
  ℕ, zero, suc, ◌+◌, ◌-◌, ◌%◌, Bytes, IsBytes, IsBytes-append, length, take, Bool, true, false, [],
  ◌∷◌, ◌++◌, ◌≡◌, refl, subst, ◌==◌, text_eq, text_eq_refl, text_eq-eq, take-append_of_length,
  length-append, append_assoc, if◌then◌else◌, arith, Option, none, some, Bool-cases, inl, inr,
}
use mathlib.Core.Bool.{xor}
use mathlib.Core.Option.{some-injective}
use did_rust.Crates.Signing.{Ed25519, IsEd25519}
use did_rust.Crates.Hashing.{Sha256, IsSha256, Secp256k1, IsSecp256k1}
use did_rust.Crates.Sealing.{Aead, IsAead}

abbrev zeros : ℕ → Bytes
zeros zero = []
zeros (suc n) = 0 ∷ zeros n

abbrev sum : Bytes → ℕ
sum [] = 0
sum (b ∷ rest) = b + sum rest

abbrev bit : Bool → ℕ
bit true = 1
bit false = 0

abbrev is_one : Bytes → Bool
is_one [] = false
is_one (b ∷ rest) = b == 1

abbrev parity : Bytes → Bool
parity m = sum m % 2 == 1

abbrev pub two_keys : Ed25519
two_keys = record {
  SigningKey = Bool;
  VerifyingKey = Bool;
  Signature = Bool;
  signing_key = is_one;
  signing_key_to_bytes = λ k. bit k ∷ zeros 31;
  verifying_key = λ k. k;
  verifying_key_from_bytes = λ b. some (is_one b);
  verifying_key_as_bytes = λ k. bit k ∷ zeros 31;
  sign = λ k m. xor k (parity m);
  signature_from_slice = λ b. some (is_one b);
  signature_to_bytes = λ s. bit s ∷ zeros 63;
  verify = λ k m s. xor k (xor (parity m) (xor s true));
}

pub two_keys-IsEd25519 : IsEd25519 two_keys
unfolding xor
two_keys-IsEd25519 = record {
  signing_key-signing_key_to_bytes = elim [ true ↦ refl | false ↦ refl ];
  signing_key_to_bytes-IsArray = elim [ true ↦ omega arith | false ↦ omega arith ];
  verifying_key_from_bytes-as_bytes = elim [ true ↦ refl | false ↦ refl ];
  verifying_key_as_bytes-IsArray = elim [ true ↦ omega arith | false ↦ omega arith ];
  signature_from_slice-to_bytes = elim [ true ↦ refl | false ↦ refl ];
  signature_to_bytes-IsArray = elim [ true ↦ omega arith | false ↦ omega arith ];
  verify-sign = λ k m. xor_cancel k (parity m);
}
  where
    xor_cancel : (a b : Bool) → xor a (xor b (xor (xor a b) true)) ≡ true
    xor_cancel true true = refl
    xor_cancel true false = refl
    xor_cancel false true = refl
    xor_cancel false false = refl

abbrev pub checksum : Sha256
checksum = record {
  Hasher = Bytes;
  new = [];
  update = λ s b. s ++ b;
  finalize = λ s. (sum s % 256) ∷ zeros 31;
}

pub checksum-IsSha256 : IsSha256 checksum
checksum-IsSha256 = record { update-update = append_assoc; finalize-IsArray = λ s. omega arith }

abbrev scalar : Bytes → Option ℕ
scalar [] = none
scalar (b ∷ rest) = if b == 0 then none else some b

abbrev pub scalars : Secp256k1
scalars = record {
  SecretKey = ℕ;
  secret_key = scalar;
  encoded_point = λ n. 4 ∷ (n % 256) ∷ zeros 63;
}

pub scalars-IsSecp256k1 : IsSecp256k1 scalars
scalars-IsSecp256k1 = record { encoded_point-IsArray = λ s. omega arith }

abbrev open_sealed : Bytes → Bytes → Bytes → Option Bytes
open_sealed key nonce c =
    let m = take (length c - 16) c in if text_eq c (m ++ zeros 16) then some m else none

abbrev pub tagged : Aead
tagged = record { encrypt = λ key nonce m. some (m ++ zeros 16); decrypt = open_sealed }

take-sealed : (m : Bytes) → take (length (m ++ zeros 16) - 16) (m ++ zeros 16) ≡ m
take-sealed m =
    take-append_of_length (length (m ++ zeros 16) - 16) m (zeros 16)
      (omega (arith, length-append m (zeros 16)))

pub tagged-IsAead : IsAead tagged
tagged-IsAead = record {
  decrypt-encrypt = λ key nonce m sealed e. opened m sealed e;
  length-encrypt = λ key nonce m sealed e. measured m sealed e;
  encrypt-decrypt = λ key nonce m sealed e. resealed m sealed e;
  encrypt-IsBytes = λ key nonce m b e. byte_sized m _ b e;
}
  where
    opened : (m c : Bytes) → some (m ++ zeros 16) ≡ some c → open_sealed [] [] c ≡ some m
    opened m c e =
        subst (λ c. open_sealed [] [] c ≡ some m) (some-injective _ _ e)
          (rw (take-sealed m, text_eq_refl (m ++ zeros 16)))

    measured : (m c : Bytes) → some (m ++ zeros 16) ≡ some c → length c ≡ length m + 16
    measured m c e =
        subst (λ c. length c ≡ length m + 16) (some-injective _ _ e) (length-append m (zeros 16))

    byte_sized : (m c : Bytes) → IsBytes m → some (m ++ zeros 16) ≡ some c → IsBytes c
    byte_sized m c b e =
        subst IsBytes (some-injective _ _ e) (IsBytes-append m (zeros 16) b (omega arith))

    resealed : (m c : Bytes) → open_sealed [] [] c ≡ some m → some (m ++ zeros 16) ≡ some c
    resealed m c e =
        let t = take (length c - 16) c in
        elim (Bool-cases (text_eq c (t ++ zeros 16))) [
          | inl same ↦ ground (arith, text_eq-eq c (t ++ zeros 16) same)
          | inr other ↦ ground arith
        ]
