-- ===== src/Tests.antt =====
-- Concrete runs of the authority.
mod World
mod Uploads
mod Topologies
mod Descriptors
mod Connections
mod Worker
mod Tallies
mod Progress
mod Agreements
mod Proxies
mod Generated
mod Starts
mod Restarts
