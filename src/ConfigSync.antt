-- ===== src/ConfigSync.antt =====
-- internal/configsync: the synchronization of the assigned configuration.
pub mod Plan
pub mod Tests
