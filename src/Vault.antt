-- ===== src/Vault.antt =====
-- The connector and credential vault (vault/).
pub mod Model
pub mod Keys
pub mod Store
pub mod Grants
pub mod Refresh
pub mod Crypto
pub mod Server
pub mod LockFile
pub mod State
pub mod Access
pub mod Connect
pub mod App
