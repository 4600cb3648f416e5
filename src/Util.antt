-- ===== src/Util.antt =====
-- src/lib/util: the helpers that the other parts stand on.
pub mod Der
pub mod Base64
pub mod Utf
pub mod Hex
pub mod Json
pub mod AsicUri
mod Tests
mod TextTests
