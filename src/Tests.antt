-- ===== src/Tests.antt =====
-- The samples of the tests, and the tests of each part: each runs a theorem at a concrete input.
pub mod Data
pub mod Encodings
pub mod Records
pub mod Sharing
pub mod Requests
pub mod Claims
pub mod Proofs
pub mod Identity
pub mod Sessions
pub mod Blobs
pub mod Signing
pub mod Writes
pub mod Library
pub mod Links
