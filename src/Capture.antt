-- ===== src/Capture.antt =====
-- crates/netlane-capture: reading untrusted capture files. A byte is a number, a byte string a list.
pub mod Bytes
pub mod Types
pub mod Decode
pub mod Reader
pub mod Export
