-- ===== src/Engine/Control/Spec.antt =====
-- The control plane of crates/bsrs/src/engine/run_engine.rs against a specification that knows
-- neither counters nor generations.
use bsrs.Prelude.{
  ℕ, Bool, true, false, ◌&&◌, ◌||◌, Option, none, some, List, [], ◌∷◌, ◌++◌, map, ◌==◌, get_elem?,
  remove_idx, any,
}
use bsrs.Engine.Control.{
  RunControl, Suspension, new, reset_for_run, pause, wake, resume, request_suspend, release,
}

-- What happens to the control plane: a run begins, the user pauses or resumes, a suspension is
-- requested, the i-th of the suspensions not yet lifted is lifted, an interrupt wakes the engine, or
-- the run loop renews the token.
pub data Step (F : Type 0) : Type 0 where
  begins pauses resumes interrupts renews : Step F
  suspends : Suspension F → Step F
  lifts : ℕ → Step F

-- The control plane with the tasks that `request_suspend` spawned and that have not released yet,
-- each with its generation.
pub record System (F : Type 0) : Type 0 where
  pub ctl : RunControl F
  pub tasks : List ℕ

-- The specification: paused or not, by the user or not, and for each task whether it belongs to the
-- present run.
pub record Spec : Type 0 where
  pub is_paused : Bool
  pub manual_pause : Bool
  pub tasks : List Bool

abbrev pub id_test : Bool → Bool
id_test b = b

-- The engine stays paused by the user's pause, or while another suspension of the run is there.
abbrev pub spec_lift : Spec → ℕ → Option Bool → Spec
spec_lift s i none = s
spec_lift s i (some false) = record s { tasks = remove_idx s.tasks i }
spec_lift s i (some true) = record s {
  tasks = remove_idx s.tasks i;
  is_paused = s.is_paused && (s.manual_pause || any id_test (remove_idx s.tasks i));
}

unfoldable pub spec_step : {F : Type 0} → Step F → Spec → Spec
spec_step begins s = record {
  is_paused = false;
  manual_pause = false;
  tasks = map (λ b. false) s.tasks;
}
spec_step pauses s = record s { is_paused = true; manual_pause = true }
spec_step resumes s = record s { is_paused = false; manual_pause = false }
spec_step interrupts s = record s { is_paused = false }
spec_step renews s = s
spec_step (suspends x) s = record s { is_paused = true; tasks = s.tasks ++ true ∷ [] }
spec_step (lifts i) s = spec_lift s i (get_elem? s.tasks i)

abbrev pub spec_start : Spec
spec_start = record { is_paused = false; manual_pause = false; tasks = [] }

abbrev pub of_run : ℕ → List ℕ → List Bool
of_run gen = map (λ g. g == gen)

module _ {F : Type 0} where
  abbrev pub lift_task : System F → ℕ → Option ℕ → System F
  lift_task s i none = s
  lift_task s i (some g) = record { ctl = release s.ctl g; tasks = remove_idx s.tasks i }

  unfoldable pub step : Step F → System F → System F
  step begins s = record s { ctl = reset_for_run s.ctl }
  step pauses s = record s { ctl = pause s.ctl }
  step resumes s = record s { ctl = resume s.ctl }
  step interrupts s = record s { ctl = wake (record (s.ctl) { cancelled = true }) }
  step renews s = record s { ctl = record (s.ctl) { cancelled = false } }
  step (suspends x) s =
      let r = request_suspend s.ctl x in record { ctl = r.0; tasks = s.tasks ++ r.1 ∷ [] }
  step (lifts i) s = lift_task s i (get_elem? s.tasks i)

  abbrev pub start : System F
  start = record { ctl = new; tasks = [] }

  unfoldable pub steps : List (Step F) → System F → System F
  steps [] s = s
  steps (x ∷ xs) s = steps xs (step x s)

  unfoldable pub spec_steps : List (Step F) → Spec → Spec
  spec_steps [] s = s
  spec_steps (x ∷ xs) s = spec_steps xs (spec_step x s)

  -- What the specification sees of the system.
  unfoldable pub view : System F → Spec
  view s = record {
    is_paused = s.ctl.is_paused;
    manual_pause = s.ctl.manual_pause;
    tasks = of_run s.ctl.run_gen s.tasks;
  }
