-- ===== src/Qs/TaskSlot.antt =====
-- crates/bsrs/src/qs/task_slot.rs: the claim on queue execution.
-- An abort handle is a number. Where the code aborts a handle, the operation returns it as aborted.
-- `next_gen` is a `u64`. Each operation runs under the slot's mutex, so it is one step.
pub mod Protocol
pub mod Invariant
use bsrs.Prelude.{ℕ, ◌+◌, ◌%◌, ◌^◌, Bool, true, false, Option, none, some, ◌==◌, if◌then◌else◌}

pub record Entry : Type 0 where
  pub generation : ℕ
  pub handle : Option ℕ

pub record Slot : Type 0 where
  pub next_gen : ℕ
  pub entry : Option Entry
  pub worker_finished : Bool

abbrev pub u64_mod : ℕ
u64_mod = 2 ^ 64

unfoldable pub new : Slot
new = record { next_gen = 0; entry = none; worker_finished = false }

-- The generation of the returned guard, or nothing while another claim is live.
unfoldable pub claim : Slot → Slot × Option ℕ
claim s = elim s.entry [
  | some e ↦ (s, none)
  | none ↦
      let generation = s.next_gen in
      (
        record s {
          next_gen = (generation + 1) % u64_mod;
          entry = some (record { generation = generation; handle = none });
        },
        some generation,
      )
]

-- The handle comes back if it is aborted.
unfoldable pub register : Slot → ℕ → ℕ → Slot × Option ℕ
register s generation handle = elim s.entry [
  | none ↦ (s, some handle)
  | some e ↦
      if e.generation == generation
      then (record s { entry = some (record e { handle = some handle }) }, none)
      else (s, some handle)
]

abbrev handle_of : Option Entry → Option ℕ
handle_of none = none
handle_of (some e) = e.handle

unfoldable pub take : Slot → Slot × Option ℕ
take s = (record s { entry = none }, handle_of s.entry)

unfoldable pub is_active : Slot → Bool
is_active s = elim s.entry [ none ↦ false | some e ↦ true ]

-- `finish`, which the drop of the guard of `generation` calls.
unfoldable pub finish : Slot → ℕ → Slot
finish s generation = elim s.entry [
  | none ↦ s
  | some e ↦
      if e.generation == generation then record s { entry = none; worker_finished = true } else s
]

unfoldable pub take_worker_finished : Slot → Slot × Bool
take_worker_finished s = (record s { worker_finished = false }, s.worker_finished)
