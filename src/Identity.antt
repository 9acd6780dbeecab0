-- ===== src/Identity.antt =====
-- The identity kernel (identity/): who a caller is and what it may do.
pub mod Model
pub mod Store
pub mod Authorize
pub mod Resolve
pub mod Exchange
pub mod Jwt
pub mod Services
pub mod Federation
pub mod Oauth
pub mod App
pub mod Server
