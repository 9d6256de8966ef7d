-- ===== src/Qs.antt =====
-- The queue server (crates/bsrs/src/qs): its plan queue, worker slot, task tracker, permissions,
-- locks and request handlers.
pub mod Json
pub mod Queue
pub mod TaskSlot
pub mod Worker
pub mod Environment
pub mod Tasks
pub mod State
pub mod Clock
pub mod Lock
pub mod Permissions
pub mod Items
pub mod Batch
pub mod Moves
pub mod Edits
