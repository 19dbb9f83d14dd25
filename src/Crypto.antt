-- ===== src/Crypto.antt =====
-- The namespace Core::Crypto: include/Crypto and src/Crypto.
pub mod Data
pub mod Random
pub mod Sha256
pub mod Secp256k1
