-- ===== src/Crates.antt =====
-- The packages of Cargo.toml that the source calls: for each a record of the operations that it
-- uses, and a record of the laws that their documentation states. A call that may fail returns a
-- sum, its error as the text that `to_string` gives, or an `Option` where the source drops the error.
pub mod Codec
pub mod Signing
pub mod Hashing
pub mod Sealing
pub mod Json
pub mod Outside
pub mod Primitives
