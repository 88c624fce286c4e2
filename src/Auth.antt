-- ===== src/Auth.antt =====
-- internal/auth: the caches of the credentials that were used and that are revoked.
pub mod Replay
pub mod Revocations
pub mod Tests
