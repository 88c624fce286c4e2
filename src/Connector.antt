-- ===== src/Connector.antt =====
-- internal/connector: how a helper reaches the edge.
pub mod Racing
pub mod Supervisor
pub mod Tests
