-- ===== src/Server.antt =====
-- The server of src/server.rs: the login of a connection, its sessions, and their removal.
pub mod Login
pub mod Sessions
pub mod Expiry
mod Examples
