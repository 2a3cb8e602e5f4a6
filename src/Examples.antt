-- ===== src/Examples.antt =====
-- Tests and concrete runs of the contract, on a host that keeps the documented behaviour.
pub mod Host
pub mod Runs
pub mod Payouts
pub mod Sale
pub mod Upgrade
pub mod Settled
