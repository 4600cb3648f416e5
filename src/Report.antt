-- ===== src/Report.antt =====
-- What a verification reports: src/lib/core/session/ and src/lib/core/policy/.
pub mod Types
pub mod Summary
pub mod Checks
pub mod Commit
pub mod Verdict
pub mod Ownership
pub mod Projection
pub mod Aggregation
mod Tests
mod SignerTests
