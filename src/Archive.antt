-- ===== src/Archive.antt =====
-- waku/waku_archive: the archive of messages on the driver that keeps them in memory, a sorted set
-- of bounded size.
pub mod Order
pub mod SortedSet
pub mod Index
pub mod Queue
pub mod Unbounded
pub mod Bounded
pub mod Counts
pub mod Pages
pub mod Find
pub mod Cursors
pub mod ListSet
pub mod Responses
pub mod Split
pub mod Paging
pub mod Resuming
pub mod Stored
pub mod Handle
pub mod Handled
mod Tests
