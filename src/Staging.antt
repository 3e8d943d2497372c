-- ===== src/Staging.antt =====
-- src/consensus/staging: where blocks are committed.
pub mod State
pub mod Invariant
pub mod Commit
pub mod ViewChange
pub mod NewView
pub mod Votes
pub mod Blocks
pub mod Worker
