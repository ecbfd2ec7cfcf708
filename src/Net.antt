-- ===== src/Net.antt =====
-- server/src/net.rs: what the server's threads exchange with a client.
pub mod Writer
pub mod Registry
pub mod Connection
pub mod Reader
