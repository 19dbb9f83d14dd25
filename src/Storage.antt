-- ===== src/Storage.antt =====
-- The namespace Core::Storage: include/Storage and src/Storage.
pub mod Storage
pub mod Block
pub mod Chain
pub mod Manager
