-- ===== src/Protocol.antt =====
-- The vocabulary of the wire protocol: nodeinnet-api/src (lib.rs, rtc.rs, ws.rs) and
-- nodeinnet-p2p/src/p2p.rs.
pub mod Types
pub mod Message
pub mod Access
pub mod Turn
mod Examples
