-- ===== src/Client.antt =====
-- The client of client-core/src/rtc/mod.rs: `WebRtcClient`, with the tasks and callbacks that it sets up.
-- The webrtc library answers through parameters.
pub mod KeepAlive
pub mod Outbound
pub mod Transport
pub mod Desktop
mod Examples
