-- ===== src/Tests.antt =====
-- The theorems at concrete data, over packages that are simple enough to run.
mod Fixture
mod Documents
mod Issues
mod Keys
mod Vaults
mod Resolution
mod Interfaces
mod Memory
mod Published
mod Suites
