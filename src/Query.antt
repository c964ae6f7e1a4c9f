-- ===== src/Query.antt =====
-- src/query: the query language and how a query is answered from the index.
pub mod Text
pub mod Syntax
pub mod Parser
pub mod Plan
pub mod Planner
pub mod Sets
pub mod Executor
pub mod Ascii
pub mod Content
pub mod Filter
mod Runs
