-- ===== src/Network.antt =====
-- client-core/src/network: the network manager, its commands and its routing of signals.
pub mod Types
pub mod State
pub mod Peers
pub mod Dial
pub mod Route
pub mod Server
pub mod Commands
pub mod Run
mod Examples
