-- ===== src/Identity/Oauth.antt =====
-- The OAuth endpoints (identity/oauth/).
pub mod Clients
pub mod Codes
pub mod Tokens
