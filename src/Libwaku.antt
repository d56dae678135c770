-- ===== src/Libwaku.antt =====
-- library/libwaku.nim and library/waku_thread: the node as a library for C programs.
pub mod Thread
pub mod Requests
pub mod Json
pub mod State
pub mod Api
pub mod Calls
pub mod Replies
pub mod Runs
pub mod Published
pub mod Careful
pub mod Total
pub mod Program
pub mod Linked
mod Tests
