-- ===== src/Master.antt =====
-- The master: the parts of master/.
pub mod Network
pub mod Replies
pub mod Raccoon
pub mod State
pub mod Parallel
pub mod Oracles
pub mod Balancer
pub mod Stealer
pub mod Configuration
pub mod Nodes
pub mod Records
pub mod Batch
pub mod Listing
pub mod Merger
pub mod Runner
