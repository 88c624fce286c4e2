-- ===== src/Session.antt =====
-- internal/session: the life of a session, its output fanout and its input decisions.
pub mod State
pub mod Input
pub mod Ring
pub mod Fanout
pub mod Attaching
pub mod Live
pub mod Process
pub mod Manager
pub mod Tests
