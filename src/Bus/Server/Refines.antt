-- ===== src/Bus/Server/Refines.antt =====
-- The ledger on SQLite against the ledger in memory.
pub mod Steps
pub mod Reads
pub mod Runs
