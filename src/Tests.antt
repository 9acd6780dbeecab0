-- ===== src/Tests.antt =====
-- Runs at concrete data, and the theorems at concrete data.
pub mod Identity
pub mod Federation
pub mod Jwt
pub mod Bus
pub mod Delivery
pub mod Server
pub mod Sealing
pub mod App
pub mod LockFile
pub mod Vault
pub mod Connect
pub mod Capture
