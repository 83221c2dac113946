-- ===== src/Lib.antt =====
-- did_rust: decentralized identifiers, verifiable credentials and presentations, keys derived
-- from a seed, and a vault for payloads.
--
-- The program. `src/crypto.rs` derives keys and identifiers from a seed of 32 bytes,
-- `src/vault_crypto.rs` seals and opens payloads, `src/resolver.rs` finds the document of an
-- identifier, and `src/lib.rs` has the entry points: `generate_did`, `resolve_did`, `issue_vc`,
-- `verify_vc`, `issue_vp` and `verify_vp`. To verify a document they take its `proof` off, write
-- the rest as JSON, and look for a key that verifies the signature among those of the document of
-- its issuer or holder, which the resolver finds. The program keeps no state between calls.
--
-- The files, with the code that each models:
--   Prelude        the helpers: texts as their UTF-8 bytes, lists, words, and `Result`, whose
--                  third case `panic` is a panic of the code
--   Crates         the packages, each a record of operations with a record of laws: Codec (bs58,
--                  hex), Signing (ed25519-dalek, k256), Hashing (sha2), Sealing
--                  (chacha20poly1305), Json (serde_json), Outside (chrono, reqwest); Primitives
--                  holds all that cryptography uses
--   Crypto         src/crypto.rs, a function for each function; Attempts describes the search for
--                  a scalar, Separation what is hashed, Identity the derived identities
--   Vault          src/vault_crypto.rs
--   Resolver       src/resolver.rs; `resolve_key`, `resolve_web` and `resolve_ipfs` are the
--                  `resolve` of its three implementations of the trait `DidResolver`; where the
--                  HTTP client cannot be built, its use is a `panic`
--   Services       what src/lib.rs uses: the packages and the resolver
--   Signature      `internal_verify_signature` of src/lib.rs
--   Credential     `internal_verify_vc`, `verify_vc` and `issue_vc` of src/lib.rs; Https is about
--                  a client that refuses https, as the one of Cargo.toml does
--   Presentation   `verify_vp` and `issue_vp` of src/lib.rs; `internal_verify_vp` is the body of
--                  `verify_vp` behind the parse, with its early returns as errors
--   Did            `generate_did` and `resolve_did` of src/lib.rs
--                  Modules named Accepts say when a document is accepted, Issue and Issuable what
--                  is issued and when; Did/Issues, Did/Web, Did/Presents, Ffi/EndToEnd and
--                  Ffi/Written put the calls of an issuer, a holder and a verifier together
--   Suite          the unit tests, see below
--   Tests          witnesses over small packages (Fixture) that have the laws
--
-- Bounds. The search for a scalar makes 256 attempts, the bound of the source, by recursion on
-- the rounds left. All other loops recur on their list. An index is a natural number whose four
-- bytes in little endian are taken modulo 2^32; where two indices are compared they are below
-- 2^32, as a `u32` is.
--
-- Not modelled: the wiping of secrets from memory (zeroize); the order of the keys of a JSON
-- object, but for what the laws of Json say (an inserted key that was absent can be removed
-- again); the HTTP client, a parameter that can or cannot be built, and that answers a URL with
-- one response within a call; the clock, the random nonce and the random key, which are
-- arguments; of the unit tests,
-- `test_serde_json_preserve_order_stable_serialization`, which calls nothing but serde_json, and
-- the tests in `tests/` but two, since they compare with vectors of the real hash functions, look
-- at freed memory, or need that a tampered ciphertext is refused.
--
-- The interfaces. Envelope has the JSON replies (Shape reads them field by field), Wasm is the
-- module `wasm_api` of src/lib.rs, and Ffi its functions `*_ffi`, with `c_string` and
-- `read_byte_slice`. A pointer argument is what it points to, or nothing where it is null. To read
-- more bytes from it than can be read is undefined in the code, and `panic` in `read_byte_slice`.
-- Ffi/Memory has the strings that were handed out, by their addresses, and `free_string`: to free
-- a pointer that is not to a live string is undefined. Safety has the lemmas that both interfaces
-- share.
--
-- The structs with derived `Serialize` and `Deserialize` are in Document, as their attributes
-- describe them: a field that must be there, one with a default, an `Option`; they are read from
-- an object, or from an array of their fields in order. The derived code is generated, so that it
-- agrees with this is a hypothesis, `IsDocuments` of Services. No code of the crate uses `Proof`
-- and `VerifiablePresentation`; they say what a presentation looks like.
--
-- Suite has the unit tests of src/lib.rs and src/resolver.rs, and two of tests/, each a program
-- that runs on the strings that the C interface handed out (Program), with no result where an
-- assertion fails, an `unwrap` has nothing, or a pointer that is not live is read or freed. What
-- each step does is in Steps, what several tests do in Sessions, and what they read of replies in
-- Generated, Verdicts and Resolves. They rest on `IsReadBack` of Crates/Json/Tree: serde_json
-- reads back what it printed of a value without numbers whose arrays and objects are nested at
-- most 127 deep, its recursion limit. A `CString` that a test makes is owned by the test, so it
-- is a text. The test of the fetch takes the answer of its server as a hypothesis.
pub mod Prelude
pub mod Crates
pub mod Crypto
pub mod Vault
pub mod Resolver
pub mod Services
pub mod Signature
pub mod Credential
pub mod Presentation
pub mod Did
pub mod Safety
pub mod Envelope
pub mod Document
pub mod Wasm
pub mod Ffi
pub mod Suite
mod Tests
