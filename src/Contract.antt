-- ===== src/Contract.antt =====
-- src/contract.rs: the handlers, by what they do.
pub mod Stream
pub mod Position
pub mod Subscribe
pub mod Withdraw
pub mod Create
pub mod Finish
pub mod Admin
