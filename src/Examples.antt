-- ===== src/Examples.antt =====
-- Concrete runs of the code, which also show that the theorems' hypotheses can hold.
pub mod Fixtures
mod Logs
mod Quorums
mod Forks
mod Stagings
mod Votes
pub mod Blocks
mod Stores
mod Wire
mod Leaders
mod Pacers
mod Receivers
mod Broadcasts
mod Clients
mod Answers
