-- ===== src/DefaultConnection.antt =====
-- crates/netlane-core/src/default_connection.rs: the plan of IPv4 priorities, its application and
-- its recovery.
mod Types
unfoldable pub use Types.*
pub mod Plan
pub mod Requests
pub mod Apply
pub mod Journals
pub mod Memory
mod Tests
