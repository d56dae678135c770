-- ===== src/Rln.antt =====
-- waku/waku_rln_relay: the check of messages against the rate limit of their senders, the window of
-- Merkle roots and the nonces of a sender. A value of 32 bytes is the number that its bytes spell,
-- the lowest byte first. Proofs, hashes and the reader of protobuf fields are libraries, and
-- parameters.
pub mod Log
pub mod Validation
pub mod Limits
pub mod Acceptance
pub mod Clearing
pub mod Silence
pub mod Roots
pub mod Nonces
mod Tests
