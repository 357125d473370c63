-- ===== src/Session.antt =====
-- The sessions of client-core/src/rtc: what an incoming message passes before it reaches the node.
pub mod Types
pub mod Core
pub mod Resources
pub mod Incoming
pub mod Laws
pub mod Firewall
pub mod Response
mod Examples
