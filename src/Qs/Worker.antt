-- ===== src/Qs/Worker.antt =====
-- The queue worker of crates/bsrs/src/qs/server.rs, with `plan_args` of crates/bsrs/src/qs/queue.rs.
-- The engine, the plan registry and the building of JSON values are the record `Outside`. While the
-- engine runs a plan the worker holds no lock: `meanwhile` is what the clients' requests do to the
-- shared state in that time. Metrics and log lines are left out.
pub mod Ends
pub mod Kept
use bsrs.Prelude.{
  ℕ, zero, suc, ◌+◌, ◌-◌, ◌%◌, Bool, true, false, not, ◌||◌, String, Option, none, some, List, [],
  ◌∷◌, ◌++◌, map, length, drop, get_last?, if◌then◌else◌, str_eq, ◌⊎◌, inl, inr,
}
use Prim.Native.String.{◌++◌ as append}
use bsrs.Prelude.Maps.{lookup}
use bsrs.Qs.Queue.{QueuedItem, PlanQueue, with_result, push_back, pop_front, push_history}
use bsrs.Qs.State.{EState, idle, executing_queue, EngineState}
use bsrs.Qs.TaskSlot.{Slot, finish, u64_mod}

-- What `run_async_with` returns: a run result, or an error with its text.
pub data RunResult : Type 0 where
  ran : (exit_status reason : String) (run_uids : List String) → RunResult
  raised : String → RunResult

pub record Outside (V : Type 0) : Type 1 where
  pub Plan : Type 0
  pub Core : Type 0
  -- `registry.plan(name)`, applied to the registry: a plan, or the text of an error.
  pub plan : String → Option (V → Plan ⊎ String)
  pub run : Plan → List (String × V) → Core → RunResult × Core
  pub fresh : ℕ → String
  pub null : V
  pub text : String → V
  pub object : List (String × V) → V
  pub as_object : V → Option (List (String × V))
  pub as_bool : V → Option Bool

-- What the worker shares with the rest of the manager; `drawn` counts the UUIDs drawn.
pub record World {V : Type 0} (O : Outside V) : Type 0 where
  pub queue : PlanQueue V
  pub state : EngineState V
  pub slot : Slot
  pub core : O.Core
  pub drawn : ℕ

-- One turn of the loop returns, or goes on.
pub data Turn {V : Type 0} (O : Outside V) : Type 0 where
  returns : World O → Turn O
  continues : World O → Turn O

unfoldable pub item_completed : String → Bool
item_completed exit_status = str_eq exit_status "success" || str_eq exit_status "no-run"

module _ {V : Type 0} where
  unfoldable pub idle_out : Bool → EngineState V → EngineState V
  idle_out disable_autostart s = record s {
    state = some idle;
    pause_pending = false;
    current_item = none;
    queue_autostart_enabled = if disable_autostart then false else s.queue_autostart_enabled;
  }

-- `for entry in re_runs { if entry.0 == uid { entry.1 = false } }`
unfoldable pub mark_closed : String → List (String × Bool) → List (String × Bool)
mark_closed uid = map (λ e. if str_eq e.0 uid then (e.0, false) else e)

-- The new run goes last, and the last 64 stay.
unfoldable pub add_run : String → List (String × Bool) → List (String × Bool)
add_run uid runs = let all = mark_closed uid runs ++ (uid, false) ∷ [] in drop (length all - 64) all

abbrev pub add_run? : Option String → List (String × Bool) → List (String × Bool)
add_run? none runs = runs
add_run? (some uid) runs = add_run uid runs

module _ {V : Type 0} (O : Outside V) (meanwhile : World O → World O) where
  unfoldable pub plan_args : QueuedItem V → V
  plan_args i = O.object (("args", i.args) ∷ ("kwargs", i.kwargs) ∷ [])

  abbrev pub text_or_null : Option String → V
  text_or_null none = O.null
  text_or_null (some s) = O.text s

  abbrev pub status_of : RunResult → String
  status_of (ran status reason uids) = status
  status_of (raised e) = "fail"

  abbrev pub reason_of : RunResult → String
  reason_of (ran status reason uids) = reason
  reason_of (raised e) = e

  abbrev pub last_uid : RunResult → Option String
  last_uid (ran status reason uids) = get_last? uids
  last_uid (raised e) = none

  -- `push_history(item.with_result(result))`
  unfoldable pub archive : QueuedItem V → V → World O → World O
  archive item result w = record w {
    queue = push_history (O.fresh w.drawn) w.queue (with_result item result);
    drawn = suc w.drawn;
  }

  -- An item that could not start is archived as failed, and the manager goes idle.
  unfoldable pub fail_item : QueuedItem V → V → Bool → World O → World O
  fail_item item reason is_plan w =
      let s = w.state in
      let counted =
        if is_plan then record s { plans_failed = (s.plans_failed + 1) % u64_mod } else s in
      let archived =
        archive item (O.object (("exit_status", O.text "fail") ∷ ("reason", reason) ∷ [])) w in
      record archived { state = idle_out true counted }

  abbrev pub metadata : QueuedItem V → List (String × V)
  metadata item = elim (O.as_object item.meta) [ none ↦ [] | some m ↦ m ]

  abbrev pub run_failed : String → Bool
  run_failed s = str_eq s "abort" || str_eq s "fail" || str_eq s "halt"

  -- The bookkeeping after the run.
  unfoldable pub after_run : RunResult → EngineState V → EngineState V
  after_run r s = record s {
    plans_run = (s.plans_run + 1) % u64_mod;
    current_run_uid = last_uid r;
    current_item = none;
    re_runs = add_run? (last_uid r) s.re_runs;
    plans_failed =
        if run_failed (status_of r) then (s.plans_failed + 1) % u64_mod else s.plans_failed;
  }

  unfoldable pub run_plan_item : QueuedItem V → O.Plan → World O → World O × String
  run_plan_item item plan w =
      let started = record w {
        state = record (w.state) { state = some executing_queue; current_item = some item };
      } in
      let result = O.run plan (metadata item) started.core in
      let later = meanwhile (record started { core = result.1 }) in
      let archived =
        archive item
          (O.object (
            ("exit_status", O.text (status_of result.0))
            ∷ ("run_uid", text_or_null (last_uid result.0))
            ∷ ("reason", O.text (reason_of result.0))
            ∷ []))
          (record later { state = after_run result.0 later.state }) in
      (archived, status_of result.0)

  abbrev pub loop_mode : EngineState V → Bool
  loop_mode s = elim (lookup "loop" s.queue_mode) [
    | none ↦ false
    | some v ↦ elim (O.as_bool v) [ none ↦ false | some b ↦ b ]
  ]

  -- The end of a turn that ran a plan.
  unfoldable pub settle : QueuedItem V → World O × String → Turn O
  settle item (w, exit_status) =
      let w' =
        if loop_mode w.state
        then record w { queue = push_back (O.fresh w.drawn) w.queue item; drawn = suc w.drawn }
        else w in
      if item_completed exit_status
      then continues w'
      else returns (record w' { state = idle_out true w'.state })

  abbrev pub stop_next : World O → World O
  stop_next w = record w { state = record (w.state) { queue_stop_pending = true } }

  -- A popped item.
  unfoldable pub take_item : QueuedItem V → World O → Turn O
  take_item item w =
      if str_eq item.item_type "instruction"
      then if str_eq item.name "queue_stop"
        then continues
            (stop_next (archive item (O.object (("exit_status", O.text "completed") ∷ [])) w))
        else returns (fail_item item (O.text (append "unknown instruction: " item.name)) false w)
      else elim (O.plan item.name) [
        | none ↦ returns (fail_item item (O.text "unknown plan") true w)
        | some factory ↦ elim (factory (plan_args item)) [
          | inr e ↦ returns (fail_item item (O.text (append "plan build failed: " e)) true w)
          | inl plan ↦ settle item (run_plan_item item plan w)
        ]
      ]

  abbrev pub next_item : World O → PlanQueue V × Option (QueuedItem V) → Turn O
  next_item w (q, none) = returns (record w { state = idle_out false w.state })
  next_item w (q, some item) = take_item item (record w { queue = q; drawn = suc w.drawn })

  -- One turn of the worker's loop.
  unfoldable pub worker_turn : World O → Turn O
  worker_turn w =
      if w.state.queue_stop_pending
      then returns
          (record w { state = idle_out true (record (w.state) { queue_stop_pending = false }) })
      else next_item w (pop_front (O.fresh w.drawn) w.queue)

  -- `execute_queue_loop` of the claim of `generation`, on fuel; the drop of the claim comes last.
  unfoldable pub execute_queue_loop : ℕ → ℕ → World O → Option (World O)
  execute_queue_loop zero generation w = none
  execute_queue_loop (suc fuel) generation w = elim (worker_turn w) [
    | returns w' ↦ some (record w' { slot = finish w'.slot generation })
    | continues w' ↦ execute_queue_loop fuel generation w'
  ]

  unfoldable pub execute_single_item : ℕ → QueuedItem V → O.Plan → World O → World O
  execute_single_item generation item plan w =
      let r = run_plan_item item plan w in
      let w' = r.0 in
      record w' {
        state = idle_out (not (item_completed r.1)) w'.state;
        slot = finish w'.slot generation;
      }
