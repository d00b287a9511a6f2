-- ===== src/Quality.antt =====
-- crates/netlane-core/src/quality.rs: the window of samples of one adapter, and the monitor that
-- hands out requests to workers. A `Duration` is its nanoseconds.
pub mod Window
pub mod Monitor
mod Tests
