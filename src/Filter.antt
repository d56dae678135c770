-- ===== src/Filter.antt =====
-- waku/waku_filter_v2: the service node's side of the filter protocol. `Tables` has the two tables
-- of a node, `Subscriptions` the operations on them, and `Protocol` the requests of the clients.
pub mod Tables
pub mod Subscriptions
pub mod Protocol
pub mod Counts
pub mod Criteria
pub mod Valid
pub mod Runs
pub mod Delivery
pub mod Withdrawal
mod Tests
