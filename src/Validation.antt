-- ===== src/Validation.antt =====
-- src/lib/core/validation: the verdict on a signature, from policy to decision.
pub mod Types
pub mod PolicyResolver
pub mod SigningTime
pub mod Path
pub mod Revocation
pub mod Decision
pub mod TrustService
pub mod Timestamp
pub mod EvidenceStore
pub mod Engine
pub mod Tests
