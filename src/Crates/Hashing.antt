-- ===== src/Crates/Hashing.antt =====
-- The SHA-256 of sha2, and the secp256k1 keys of k256.
use did_rust.Prelude.{Bytes, ◌++◌, IsArray, ◌≡◌, Option}

pub record Sha256 : Type 1 where
  pub Hasher : Type 0
  pub new : Hasher
  pub update : Hasher → Bytes → Hasher
  pub finalize : Hasher → Bytes

pub record IsSha256 (h : Sha256) : Type 0 where
  -- What is hashed is the concatenation of what was fed.
  pub update-update : (s : h.Hasher) (a b : Bytes) → h.update (h.update s a) b ≡ h.update s (a ++ b)
  pub finalize-IsArray : (s : h.Hasher) → IsArray 32 (h.finalize s)

pub record Secp256k1 : Type 1 where
  pub SecretKey : Type 0
  -- `SecretKey::from_bytes`, which refuses zero and what is not below the order of the group
  pub secret_key : Bytes → Option SecretKey
  -- `secret_key.public_key().to_encoded_point(false).as_ref()`
  pub encoded_point : SecretKey → Bytes

-- An uncompressed point is a tag byte and two coordinates of 32 bytes.
pub record IsSecp256k1 (k : Secp256k1) : Type 0 where
  pub encoded_point-IsArray : (s : k.SecretKey) → IsArray 65 (k.encoded_point s)
