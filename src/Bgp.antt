-- ===== src/Bgp.antt =====
-- Sessions with peers, src/bgp.rs.
pub mod Choose
pub mod Receive
pub mod Plan
pub mod Transmit
pub mod Listeners
pub mod Sockets
pub mod Table
pub mod Local
pub mod Handshake
pub mod Session
pub mod PeerLoop
pub mod Exports
