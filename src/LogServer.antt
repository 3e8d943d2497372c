-- ===== src/LogServer.antt =====
-- src/consensus/logserver.rs: the log of a node, its read cache over collected blocks, and the
-- answers to backfill requests and queries.
pub mod ReadCache
pub mod State
pub mod Blocks
pub mod Backfill
pub mod Queries
