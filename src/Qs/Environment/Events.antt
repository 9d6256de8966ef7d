-- ===== src/Qs/Environment/Events.antt =====
-- What happens to the manager's environment, of crates/bsrs/src/qs/dispatch.rs, one step at a time.
use bsrs.Prelude.{ℕ, ◌≡◌, Bool, true, false, String, Option, none, some, List, [], ◌∷◌, ◌==◌}
use bsrs.Qs.Queue.{PlanQueue}
use bsrs.Qs.State.{executing_queue}
use bsrs.Qs.TaskSlot
use bsrs.Qs.TaskSlot.{Slot}
use bsrs.Qs.Worker.{idle_out}
use bsrs.Engine.Control.{Flags}
use bsrs.Qs.Environment.{
  Manager, Job, set_state, start_at, env_close, env_destroy, queue_start, maybe_autostart,
  environment_open, queue_stop, queue_stop_cancel, queue_autostart, queue_mode_set, re_pause,
  re_with, re_resume, re_abort, re_halt, re_stop, manager_stop,
}

-- The requests, and what the worker and the engine do between them: the worker that has the claim
-- `generation` starts an item or ends, which sets the state whether or not the claim is still
-- live, and the engine changes its own flags.
pub data Event (V Plan F : Type 0) : Type 0 where
  opens : Option (Option String) → Event V Plan F
  closes destroys starts stops cancels_stop resumes aborts halts stops_run stops_manager :
      Event V Plan F
  executes : Job V Plan → Event V Plan F
  sets_autostart pauses : Bool → Event V Plan F
  sets_mode : List (String × V) → Event V Plan F
  edits adds : (PlanQueue V → PlanQueue V) → Event V Plan F
  worker_begins : (generation : ℕ) → Event V Plan F
  worker_ends : (generation : ℕ) (disable_autostart : Bool) → Event V Plan F
  engine_moves : (Flags F → Flags F) → Event V Plan F

abbrev pub owns : Slot → ℕ → Bool
owns s g = elim s.entry [ none ↦ false | some e ↦ e.generation == g ]

module _ {V Plan F : Type 0} where
  unfoldable pub react : Event V Plan F → Manager V Plan F → Manager V Plan F
  react (opens hook) m = (environment_open hook m).0
  react closes m = (env_close m).0
  react destroys m = (env_destroy m).0
  react starts m = (queue_start m).0
  react stops m = queue_stop m
  react cancels_stop m = queue_stop_cancel m
  react resumes m = (re_resume m).0
  react aborts m = (re_abort m).0
  react halts m = (re_halt m).0
  react stops_run m = (re_stop m).0
  react stops_manager m = manager_stop m
  react (executes job) m = (start_at job m.engine m).0
  react (sets_autostart b) m = queue_autostart b m
  react (pauses defer) m = (re_pause defer m).0
  react (sets_mode mode) m = queue_mode_set mode m
  react (edits f) m = record m { queue = f m.queue }
  react (adds f) m = maybe_autostart (record m { queue = f m.queue })
  react (worker_begins g) m = set_state executing_queue m
  react (worker_ends g b) m = record m {
    state = idle_out b m.state;
    slot = TaskSlot.finish m.slot g;
  }
  react (engine_moves f) m = (re_with f m).0

  unfoldable pub reacts : List (Event V Plan F) → Manager V Plan F → Manager V Plan F
  reacts [] m = m
  reacts (x ∷ xs) m = reacts xs (react x m)

  -- A worker acts only while its claim is live.
  abbrev pub IsTimely : Event V Plan F → Manager V Plan F → Type 0
  IsTimely (worker_begins g) m = owns m.slot g ≡ true
  IsTimely (worker_ends g b) m = owns m.slot g ≡ true
  IsTimely _ m = Unit

  abbrev pub AllTimely : List (Event V Plan F) → Manager V Plan F → Type 0
  AllTimely [] m = Unit
  AllTimely (x ∷ xs) m = IsTimely x m × AllTimely xs (react x m)
