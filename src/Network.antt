-- ===== src/Network.antt =====
-- The namespace Core::Network: include/Network and src/Network.
pub mod Client
pub mod Server
