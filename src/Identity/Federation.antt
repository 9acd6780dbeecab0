-- ===== src/Identity/Federation.antt =====
-- identity/federation/: sign-in at an island's own service.
pub mod Assertion
pub mod Principals
pub mod Flow
