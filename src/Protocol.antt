-- ===== src/Protocol.antt =====
-- internal/protocol: the frames between the runtime and its clients.
pub mod Binary
pub mod Negotiation
pub mod Tests
