-- ===== src/Enr.antt =====
-- waku/waku_enr/sharding.nim: what a node's record says of its shards.
pub mod Bitops
pub mod Sharding
mod Tests
