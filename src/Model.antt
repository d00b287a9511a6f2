-- ===== src/Model.antt =====
-- crates/netlane-core/src/model.rs: the policies, the adapters and how a policy finds its adapter.
mod Types
pub mod Policies
unfoldable pub use Types.*
