-- ===== src/Crates/Primitives.antt =====
-- The cryptographic packages together.
use did_rust.Crates.Codec.{Codec, IsCodec}
use did_rust.Crates.Signing.{Ed25519, IsEd25519}
use did_rust.Crates.Hashing.{Sha256, IsSha256, Secp256k1, IsSecp256k1}
use did_rust.Crates.Sealing.{Aead, IsAead}

pub record Primitives : Type 1 where
  pub bs58 : Codec
  pub hex : Codec
  pub ed25519 : Ed25519
  pub sha256 : Sha256
  pub secp256k1 : Secp256k1
  pub aead : Aead

pub record IsLawful (P : Primitives) : Type 0 where
  pub bs58 : IsCodec P.bs58
  pub hex : IsCodec P.hex
  pub ed25519 : IsEd25519 P.ed25519
  pub sha256 : IsSha256 P.sha256
  pub secp256k1 : IsSecp256k1 P.secp256k1
  pub aead : IsAead P.aead
