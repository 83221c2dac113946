-- ===== src/Suite.antt =====
-- src/lib.rs and src/resolver.rs: the unit tests, and two of tests/, each a program over the memory
-- of C strings.
pub mod Program
pub mod Steps
pub mod Generated
pub mod Generating
pub mod Web
pub mod Verdicts
pub mod Sessions
pub mod Resolves
pub mod Verifying
pub mod Expired
pub mod Lifecycle
pub mod Stable
pub mod Resolving
pub mod Fetching
pub mod Presented
pub mod Presenting
pub mod Rejects
pub mod Passes
