-- ===== src/Authority.antt =====
-- pki/server: the directory authority.
pub mod Types
pub mod State
pub mod Schedule
pub mod Consensus
pub mod Descriptor
pub mod Wire
pub mod Topology
pub mod Upload
pub mod Document
pub mod Chain
pub mod Fsm
pub mod Run
pub mod Tally
pub mod Commits
pub mod Agreement
pub mod Restore
pub mod Startup
