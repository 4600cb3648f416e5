-- ===== src/Session.antt =====
-- What the session does to its inputs before it hands them on: src/lib/core/session/.
pub mod Paths
pub mod Imprint
pub mod Formats
mod Tests
