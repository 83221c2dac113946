-- ===== src/Tests/Fixture.antt =====
-- Small packages that meet the laws: hexadecimal for both codecs, two keys, and a checksum in place
-- of a hash.
pub mod Codecs
pub mod Keys
pub mod Values
pub mod Prints
pub mod Parses
pub mod World
