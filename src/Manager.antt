-- ===== src/Manager.antt =====
-- The Manager at the repository's root: subscriptions and the calls that a host makes.
pub mod Subscription
pub mod Registry
pub mod Calls
pub mod OverMemory
pub mod Tests
