-- ===== src/Windows.antt =====
-- crates/netlane-windows: what the session changes in Windows beside the packet filter, and the
-- frames that carry its messages.
pub mod Flags
pub mod Protocol
