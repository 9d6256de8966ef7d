-- ===== src/Runs.antt =====
-- The documents of a run: crates/bsrs/src/event_model and crates/bsrs/src/engine/bundler.rs.
pub mod Documents
pub mod Compose
pub mod Bundler
pub mod Columns
pub mod Pages
