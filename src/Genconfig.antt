-- ===== src/Genconfig.antt =====
-- genconfig, the program that writes the configuration of a node, with its own authority, or of a client.
pub mod Network
pub mod Identifier
pub mod Types
pub mod Disk
pub mod Plugins
pub mod Nodes
pub mod Input
pub mod Run
pub mod OnDisk
pub mod Pinned
pub mod Agrees
pub mod Elsewhere
pub mod Saved
pub mod Written
