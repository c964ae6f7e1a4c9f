-- ===== src/Server.antt =====
-- src/server: the daemon, which watches a tree and keeps its index up to date.
pub mod Changes
pub mod Debouncer
pub mod Protocol
mod Runs
