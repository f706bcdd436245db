-- ===== src/Tests.antt =====
-- Concrete nodes, and the theorems at concrete inputs.
pub mod Nodes
pub mod Wires
mod Votes
mod Elections
mod Leaders
mod Clusters
mod Exchanges
mod Appends
mod Formats
mod Server
pub mod Storage
mod Restarts
mod Outside
mod Sessions
mod Serving
mod Starting
