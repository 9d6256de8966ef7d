-- ===== src/Engine.antt =====
-- The run engine, of crates/bsrs/src/engine/run_engine.rs and crates/bsrs/src/core/msg.rs.
pub mod Control
pub mod Msg
pub mod Rewind
pub mod Assets
