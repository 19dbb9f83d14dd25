-- ===== src/System.antt =====
-- The namespace Core::System: include/System and src/System.
pub mod Stoi
pub mod Arguments
