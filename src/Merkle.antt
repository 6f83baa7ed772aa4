-- ===== src/Merkle.antt =====
-- experiments/declared-scope-verifier/scope_verifier/crypto.py: RFC 6962 Merkle trees and
-- inclusion proofs over an arbitrary SHA-256 function. Bytes are lists of numbers.
pub mod Hex
pub mod Defs
pub mod Bounds
pub mod Root
pub mod Levels
pub mod Inclusion
pub mod Soundness
