-- ===== src/Lib.antt =====
-- A verification library for bsrs, a Rust engine for scientific data acquisition with a queue
-- server in front of it.
--
-- The parts and how they interact. Clients send requests to the queue server
-- (crates/bsrs/src/qs). dispatch.rs first resolves the caller's group and asks permissions.rs
-- whether the method and the plans that it names are allowed, then passes the gate of the lock in
-- state.rs, and then calls one handler, which works on the plan queue of queue.rs under its
-- mutex. A worker takes items from the queue and runs their plans; task_slot.rs is the slot that
-- lets one worker run at a time, and tasks.rs tracks the tasks that run in the background. While
-- a plan runs, the engine keeps one `RunBundler` (engine/bundler.rs) per open run, which composes
-- the run's documents through the `RunBundle` of event_model/compose.rs, shared with the pumps of
-- monitored devices. The engine's control plane takes the pauses, suspensions and interrupts, and
-- after a pause the engine replays the messages of the plan since the last checkpoint. A device
-- reports the end of an operation through a `Status` (core/status.rs), which call-backs and tasks
-- wait for.
--
-- Which file models which part:
--   Qs/Json         the accessors of serde_json::Value, as a record that the clients take
--   Qs/Queue        crates/bsrs/src/qs/queue.rs: `PlanQueue` and each of its methods
--   Qs/TaskSlot     crates/bsrs/src/qs/task_slot.rs; Protocol has the interleavings
--   Qs/Tasks        crates/bsrs/src/qs/tasks.rs: `TaskTracker`
--   Qs/State        crates/bsrs/src/qs/state.rs: `EState`, `LockInfo`, `EngineState`
--   Qs/Clock        `secs_to_ymdhms` of the same file
--   Qs/Lock         `lock_check`, `lock_apply`, `lock_release` of crates/bsrs/src/qs/dispatch.rs
--   Qs/Permissions  crates/bsrs/src/qs/permissions.rs
--   Qs/Items        `insert_positioned` and `queue_item_add` of crates/bsrs/src/qs/dispatch.rs
--   Qs/Batch        `queue_item_add_batch` of crates/bsrs/src/qs/dispatch.rs
--   Qs/Edits        `queue_item_update`, `_get`, `_remove` and `_remove_batch` of the same file
--   Qs/Moves        `queue_item_move`, `queue_item_move_batch` of crates/bsrs/src/qs/dispatch.rs
--   Qs/Worker       the queue worker of crates/bsrs/src/qs/server.rs: `execute_queue_loop`,
--                   `run_plan_item`, `execute_single_item`
--   Qs/Environment  the handlers of crates/bsrs/src/qs/dispatch.rs that open, close and destroy the
--                   environment, start the queue and control the engine; Events has their steps
--   Core/Status     crates/bsrs/src/core/status.rs: `Status` and its setter, up to their end
--   Engine/Control  `RunControl` and the pause and interrupt requests of
--                   crates/bsrs/src/engine/run_engine.rs; Spec has a specification of it
--   Engine/Msg      the messages of crates/bsrs/src/core/msg.rs
--   Engine/Rewind   the message cache, the replay queue and the checkpoints of the same engine
--   Engine/Assets   `pack_external_assets` of the same engine
--   Runs/Documents  the documents of crates/bsrs/src/event_model/documents.rs
--   Runs/Compose    crates/bsrs/src/event_model/compose.rs: `RunBundle`
--   Runs/Bundler    crates/bsrs/src/engine/bundler.rs: `RunBundler`; Save has `prepare_stream`,
--                   `save` and `declare_stream`
--   Runs/Columns    the column stores of crates/bsrs/src/event_model/page.rs
--   Runs/Pages      crates/bsrs/src/event_model/page.rs: packing, unpacking, merging, rechunking
--   Prelude         names of the libraries passed on, lists over the native numbers, maps
--   Tests           the theorems at concrete inputs
-- An operation keeps its name. One that mutates takes the state and returns the new one, with its
-- result beside it. Most hold the lock of their component for their whole body, so such an
-- operation is one step. Those that do not: `Status` runs what a transition set off after it has
-- released its lock, in steps of their own here; `queue_item_remove_batch` and, for a position,
-- `queue_item_move` release the queue in between, and take what others do to it then as an
-- argument; `RunControl` has no lock but a set of atomics, and is modelled with one step for each
-- method, so that of two methods that overlap only Engine/Control/Race speaks. A UUID or a time
-- that an operation draws is an argument, a `HashMap` is an association list, and an error is a
-- constructor with what the message names.
--
-- Bounds. Three loops run on fuel: a rechunking for as many turns as there are rows, and the
-- queue worker for one turn more than there are items, which is enough since each turn takes one,
-- and the search of a year for one turn more than a 365th of the days. Every other loop is
-- structural. The counters of task_slot.rs, of compose.rs and of the engine's control plane are
-- 64-bit and wrap; the theorems on them say for how many claims, events or requests they hold. An
-- aborted worker is taken to stop at once where a theorem says so. While the worker awaits the
-- engine, clients may change the shared state: that is a function which the theorems on the
-- worker take. The tracker's capacity is the source's 256.
--
-- Not modelled: the crates regex, serde_json and toml, which are parameters; the match of
-- dispatch.rs on the method and the handlers that only print; the resource and datum composers
-- of compose.rs; the progress of a status and the statuses that `and` combines; the engine's
-- handlers of device messages and its contingency stack; plans, devices, transports and
-- callbacks, which are input and output over other libraries.
pub mod Prelude
pub mod Core
pub mod Qs
pub mod Engine
pub mod Runs
pub mod Tests
