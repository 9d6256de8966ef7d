-- ===== src/Core.antt =====
-- The core types of crates/bsrs/src/core.
pub mod Status
