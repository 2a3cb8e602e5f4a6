-- ===== src/Killswitch.antt =====
-- src/killswitch.rs: the interruption of streams, and what is paid back.
pub mod Pause
pub mod Refund
