-- ===== src/Rss.antt =====
-- RSS subscriptions (core/rss): feeds, items, rules, the test for duplicates and the service.
pub mod Types
pub mod Rules
pub mod Dedup
pub mod Service
