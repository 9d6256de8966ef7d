-- ===== src/Qs/Environment.antt =====
-- The environment and the execution requests of crates/bsrs/src/qs/dispatch.rs, on the manager's
-- shared state. An abort handle is a number; a spawned task is listed with its generation. The
-- engine is its control plane. `hook` is the result of the environment hook, if there is one.
-- A constructor of `EnvError` is the message of an `err` response.
pub mod Events
pub mod Opened
use bsrs.Prelude.{
  ℕ, suc, Bool, true, false, not, ◌&&◌, ◌||◌, ◌⊎◌, inl, inr, String, Option, none, some, List, [],
  ◌∷◌, ◌++◌, if◌then◌else◌, str_eq, ◌==◌,
}
use bsrs.Qs.Json.{Json, str_param}
use bsrs.Qs.Queue.{QueuedItem, PlanQueue, is_empty}
use bsrs.Qs.Items.{plan_item}
use bsrs.Qs.State.{
  EState, idle, executing_queue, environment_closed, creating_environment, closing_environment,
  destroying_environment, EngineState,
}
use bsrs.Qs.TaskSlot
use bsrs.Qs.TaskSlot.{Slot}
use bsrs.Qs.Worker.{Outside, idle_out}
use bsrs.Engine.Control
use bsrs.Engine.Control.{
  Flags, EngineRunState, running, paused, aborting, halting, engine_state, engine_pause,
  engine_resume, abort, halt, stop,
}

pub data EnvError : Type 0 where
  already_open no_environment still_running not_open worker_running no_plan_running : EnvError
  missing_item only_plans name_required autostart_params : EnvError
  hook_failed unknown_plan build_failed : String → EnvError
  not_idle : Option EState → EnvError

pub data Reply : Type 0 where
  ok : Reply
  err : EnvError → Reply

-- What a request spawns on the runtime.
pub data Job (V Plan : Type 0) : Type 0 where
  queue_loop : Job V Plan
  single_item : QueuedItem V → Plan → Job V Plan

pub record Manager (V Plan F : Type 0) : Type 0 where
  pub state : EngineState V
  pub queue : PlanQueue V
  pub engine : Option (Flags F)
  pub slot : Slot
  pub spawned : List (ℕ × Job V Plan)
  pub handles : ℕ
  pub aborted : List ℕ
  pub stop_requested : Bool

abbrev pub add_aborted : Option ℕ → List ℕ → List ℕ
add_aborted none hs = hs
add_aborted (some h) hs = hs ++ h ∷ []

-- `RunEngine::new`
unfoldable pub new_engine : {F : Type 0} → Flags F
new_engine = record {
  ctl = Control.new;
  deferred_pause = false;
  is_aborting = false;
  is_halting = false;
  is_stopping = false;
  interrupt_seq = 0;
  interrupt_reason = "";
}

abbrev pub is_idle : EngineRunState → Bool
is_idle EngineRunState.idle = true
is_idle _ = false

abbrev pub is_idle_state : Option EState → Bool
is_idle_state (some EState.idle) = true
is_idle_state _ = false

module _ {V Plan F : Type 0} where
  abbrev pub set_state : EState → Manager V Plan F → Manager V Plan F
  set_state s m = record m { state = record (m.state) { state = some s } }

  abbrev pub open_at :
      Option (Option String) → Option (Flags F) → Manager V Plan F → Manager V Plan F × Reply
  open_at hook (some e) m = (m, err already_open)
  open_at (some (some e)) none m =
      (set_state environment_closed (set_state creating_environment m), err (hook_failed e))
  open_at (some none) none m = (
    set_state EState.idle (record (set_state creating_environment m) { engine = some new_engine }),
    ok,
  )
  open_at none none m = (
    set_state EState.idle (record (set_state creating_environment m) { engine = some new_engine }),
    ok,
  )

  unfoldable pub env_open : Option (Option String) → Manager V Plan F → Manager V Plan F × Reply
  env_open hook m = open_at hook m.engine m

  abbrev pub close_at : Option (Flags F) → Manager V Plan F → Manager V Plan F × Reply
  close_at none m = (m, err no_environment)
  close_at (some e) m =
      if not (is_idle (engine_state e)) || TaskSlot.is_active m.slot
      then (m, err still_running)
      else (
        set_state environment_closed (record (set_state closing_environment m) { engine = none }),
        ok,
      )

  unfoldable pub env_close : Manager V Plan F → Manager V Plan F × Reply
  env_close m = close_at m.engine m

  -- `queue_task.take()`, and the abort of the handle.
  unfoldable pub abort_worker : Manager V Plan F → Manager V Plan F
  abort_worker m =
      let t = TaskSlot.take m.slot in record m { slot = t.0; aborted = add_aborted t.1 m.aborted }

  abbrev pub destroy_at : Option (Flags F) → Manager V Plan F → Manager V Plan F × Reply
  destroy_at none m = (m, err no_environment)
  destroy_at (some e) m = (
    set_state environment_closed
        (record (set_state destroying_environment (abort_worker m)) { engine = none }),
    ok,
  )

  unfoldable pub env_destroy : Manager V Plan F → Manager V Plan F × Reply
  env_destroy m = destroy_at m.engine m

  -- The claim of the slot, the spawn, and the registration of its handle.
  abbrev pub spawn : Job V Plan → Slot × Option ℕ → Manager V Plan F → Manager V Plan F × Reply
  spawn job (slot, none) m = (m, err worker_running)
  spawn job (slot, some generation) m =
      let r = TaskSlot.register slot generation m.handles in
      (
        record m {
          slot = r.0;
          spawned = m.spawned ++ (generation, job) ∷ [];
          handles = suc m.handles;
          aborted = add_aborted r.1 m.aborted;
        },
        ok,
      )

  abbrev pub start_at : Job V Plan → Option (Flags F) → Manager V Plan F → Manager V Plan F × Reply
  start_at job none m = (m, err not_open)
  start_at job (some e) m =
      if is_idle_state m.state.state
      then spawn job (TaskSlot.claim m.slot) m
      else (m, err (not_idle m.state.state))

  unfoldable pub queue_start : Manager V Plan F → Manager V Plan F × Reply
  queue_start m = start_at queue_loop m.engine m

  unfoldable pub maybe_autostart : Manager V Plan F → Manager V Plan F
  maybe_autostart m =
      let started = (queue_start m).0 in
      if not m.state.queue_autostart_enabled || is_empty m.queue then m else started

  abbrev pub if_ok :
      Reply → (Manager V Plan F → Manager V Plan F) → Manager V Plan F → Manager V Plan F
  if_ok ok f m = f m
  if_ok (err e) f m = m

  -- The arm of `environment_open`.
  unfoldable pub environment_open :
      Option (Option String) → Manager V Plan F → Manager V Plan F × Reply
  environment_open hook m = let r = env_open hook m in (if_ok r.1 maybe_autostart r.0, r.1)

  unfoldable pub queue_stop : Manager V Plan F → Manager V Plan F
  queue_stop m = record m { state = record (m.state) { queue_stop_pending = true } }

  unfoldable pub queue_stop_cancel : Manager V Plan F → Manager V Plan F
  queue_stop_cancel m = record m { state = record (m.state) { queue_stop_pending = false } }

  -- The arm of `queue_autostart`, once its parameters are read.
  unfoldable pub queue_autostart : Bool → Manager V Plan F → Manager V Plan F
  queue_autostart enable m =
      let m' = record m { state = record (m.state) { queue_autostart_enabled = enable } } in
      let started = maybe_autostart m' in if enable then started else m'

  unfoldable pub queue_mode_set : List (String × V) → Manager V Plan F → Manager V Plan F
  queue_mode_set mode m = record m { state = record (m.state) { queue_mode = mode } }

  abbrev pub pause_at : Bool → Option (Flags F) → Manager V Plan F → Manager V Plan F × Reply
  pause_at defer none m = (m, err no_environment)
  pause_at defer (some e) m = if is_idle (engine_state e) then (m, err no_plan_running) else (
    record m {
      engine = some (engine_pause defer e);
      state = record (m.state) { pause_pending = true };
    },
    ok,
  )

  unfoldable pub re_pause : Bool → Manager V Plan F → Manager V Plan F × Reply
  re_pause defer m = pause_at defer m.engine m

  abbrev pub with_at :
      (Flags F → Flags F) → Option (Flags F) → Manager V Plan F → Manager V Plan F × Reply
  with_at f none m = (m, err no_environment)
  with_at f (some e) m = (record m { engine = some (f e) }, ok)

  unfoldable pub re_with : (Flags F → Flags F) → Manager V Plan F → Manager V Plan F × Reply
  re_with f m = with_at f m.engine m

  abbrev pub unpause : Manager V Plan F → Manager V Plan F
  unpause m = record m { state = record (m.state) { pause_pending = false } }

  unfoldable pub re_resume : Manager V Plan F → Manager V Plan F × Reply
  re_resume m = re_with engine_resume (unpause m)

  unfoldable pub re_abort : Manager V Plan F → Manager V Plan F × Reply
  re_abort m = re_with (abort "user abort") (unpause m)

  unfoldable pub re_halt : Manager V Plan F → Manager V Plan F × Reply
  re_halt m = re_with (halt "user halt") (unpause m)

  unfoldable pub re_stop : Manager V Plan F → Manager V Plan F × Reply
  re_stop m = re_with stop m

  unfoldable pub manager_stop : Manager V Plan F → Manager V Plan F
  manager_stop m = record (abort_worker m) { stop_requested = true }

-- `queue_item_execute`, with the UUID of the item.
module _ (J : Json) where
  abbrev pub submitted : String → String → J.Value → J.Value → QueuedItem J.Value
  submitted uid name item params = record (plan_item J uid name item) {
    user = str_param J params "user";
    user_group = str_param J params "user_group";
  }

  abbrev pub is_plan_type : J.Value → Bool
  is_plan_type item = elim (str_param J item "item_type") [ none ↦ true | some t ↦ str_eq t "plan" ]

module _ (J : Json) (O : Outside J.Value) {F : Type 0} where
  -- The item's plan is built before the environment is looked at.
  unfoldable pub execute_named :
      String
      → J.Value
      → J.Value
      → String
      → Manager J.Value O.Plan F
      → Manager J.Value O.Plan F × Reply
  execute_named uid params item name m = elim (O.plan name) [
    | none ↦ (m, err (unknown_plan name))
    | some factory ↦ elim (factory item) [
      | inr e ↦ (m, err (build_failed e))
      | inl plan ↦ start_at (single_item (submitted J uid name item params) plan) m.engine m
    ]
  ]

  unfoldable pub queue_item_execute :
      String → J.Value → Manager J.Value O.Plan F → Manager J.Value O.Plan F × Reply
  queue_item_execute uid params m = elim (J.get params "item") [
    | none ↦ (m, err missing_item)
    | some item ↦
        if is_plan_type J item
        then elim (str_param J item "name") [
          | none ↦ (m, err name_required)
          | some name ↦ execute_named uid params item name m
        ]
        else (m, err only_plans)
  ]
