-- ===== src/Preview.antt =====
-- internal/preview: the previews that the runtime exposes.
pub mod Record
pub mod Registry
pub mod Tests
