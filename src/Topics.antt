-- ===== src/Topics.antt =====
-- waku/waku_core/topics: the names of content topics and of pub-sub topics, and the choice of a
-- pub-sub topic for a content topic. A text is the list of its bytes.
pub mod Text
pub mod Content
pub mod Pubsub
pub mod Autosharding
pub mod Grouping
mod Tests
