-- ===== src/Udp.antt =====
-- The UDP tunnel of src/udp/udp_tunnel.rs.
pub mod Ports
pub mod Reserve
pub mod Channel
pub mod Router
pub mod Resolve
pub mod Streams
pub mod Accept
pub mod Reached
pub mod FarSide
pub mod OwnStream
mod Examples
