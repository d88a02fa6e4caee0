-- ===== src/Examples.antt =====
-- The theorems at concrete inputs, and tests.
pub mod Tasks
pub mod Downloads
pub mod Announces
pub mod Sorts
pub mod Subscriptions
pub mod Timers
pub mod Logging
pub mod Sessions
pub mod Filters
