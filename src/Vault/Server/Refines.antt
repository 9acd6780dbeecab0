-- ===== src/Vault/Server/Refines.antt =====
-- The store on SQLite against the store in memory.
pub mod Tables
pub mod Groups
pub mod Steps
pub mod Runs
