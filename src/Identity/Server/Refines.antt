-- ===== src/Identity/Server/Refines.antt =====
-- The store on SQLite against the store in memory.
pub mod Tables
pub mod Marks
pub mod Steps
pub mod Reads
pub mod Runs
