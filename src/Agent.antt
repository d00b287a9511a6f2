-- ===== src/Agent.antt =====
-- crates/netlane-agent/src/lib.rs: the session with the elevated agent, from both of its ends.
pub mod Cycle
pub mod Session
pub mod Panel
pub mod Exchange
pub mod Control
pub mod OneShot
