-- ===== src/Filter/Valid.antt =====
-- waku/waku_filter_v2: the invariant of the two tables, and that the operations keep it.
pub mod Tables
pub mod Invariant
pub mod Add
pub mod Remove
pub mod Clean
pub mod Listing
