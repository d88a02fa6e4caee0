-- ===== src/Tracker.antt =====
-- The built-in HTTP tracker (core/builtin_http_tracker.cc, core/bencode_minimal.cc).
pub mod Bencode
pub mod Query
pub mod Peers
pub mod Request
