-- ===== src/Mesh.antt =====
-- p2p-node/src/local_mesh.rs: TCP tunnels between nodes of a local network.
pub mod Packets
pub mod Messages
pub mod Tunnel
pub mod Loop
mod Examples
