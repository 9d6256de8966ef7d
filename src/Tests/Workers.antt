-- ===== src/Tests/Workers.antt =====
-- The theorems on the queue worker, the environment and the clock, each at an input.
use bsrs.Prelude.{
  ℕ, true, List, ◌≡◌, refl, false, none, some, [], ◌∷◌, ◌++◌, arith, String, map, str_eq,
  if◌then◌else◌, inl, suc,
}
use bsrs.Tests.Values.{Value, null, text, flag, J, plan_of, queue_of}
use bsrs.Prelude.Maps.{lookup}
use bsrs.Qs.State.{idle, initial}
use bsrs.Qs.TaskSlot
use bsrs.Qs.State.{idle, environment_closed}
use bsrs.Qs.Environment.{
  Manager, environment_open, env_open, env_close, maybe_autostart, queue_start, new_engine,
}
use bsrs.Qs.Environment.Events.{
  AllTimely, react, destroys, Event, opens, worker_begins, closes, worker_ends, starts, reacts,
}
use bsrs.Qs.Environment.Opened.{IsConsistent, reacts-IsConsistent, reacts-outlives_destroy}
use bsrs.Qs.Clock.{Ymdhms, secs_to_ymdhms}
use bsrs.Qs.Clock.Dates.{IsCivil, seconds_of, secs_to_ymdhms-counts}
use bsrs.Qs.Worker.{Outside, World, ran, loop_mode, execute_queue_loop}
use bsrs.Qs.Worker.Ends.{queued, IsSettled, execute_queue_loop-ends}
use bsrs.Qs.Worker.Kept.{bare, execute_queue_loop-archives}

-- A plan is its name; the plan "b" fails.
abbrev outside : Outside Value
outside = record {
  Plan = String;
  Core = ℕ;
  plan = λ name. some (λ args. inl name);
  run =
      λ plan md core. (ran (if str_eq plan "b" then "fail" else "success") "" ("r" ∷ []), suc core);
  fresh = λ n. "u";
  null = null;
  text = text;
  object = λ fields. null;
  as_object = λ v. none;
  as_bool = J.as_bool;
}

abbrev world : World outside
world = record {
  queue = queue_of (plan_of "1" ∷ record (plan_of "2") { name = "b" } ∷ plan_of "3" ∷ []);
  state = initial (flag false) "l";
  slot = (TaskSlot.claim TaskSlot.new).0;
  core = 0;
  drawn = 0;
}

-- Clients that do nothing.
abbrev alone : World outside → World outside
alone w = w

loop_off : loop_mode outside alone world.state ≡ false
unfolding initial lookup
loop_off = refl

execute_queue_loop-ends_example :
    (w' : World outside) × (execute_queue_loop outside alone
        (suc (queued outside alone world))
        0
        world
      ≡ some w')
    × IsSettled outside alone w'
execute_queue_loop-ends_example =
    execute_queue_loop-ends outside alone (λ w. (omega arith, refl)) 0 world loop_off

execute_queue_loop-archives_example :
    (w' : World outside) × (done : _) × (execute_queue_loop outside alone
        (suc (queued outside alone world))
        0
        world
      ≡ some w')
    × (w'.queue.history ≡ world.queue.history ++ done)
    × (map bare (done ++ w'.queue.items) ≡ map bare world.queue.items)
execute_queue_loop-archives_example =
    execute_queue_loop-archives outside alone (λ w. (refl, refl)) 0 world loop_off

-- A closed environment with one item queued and autostart armed.
abbrev manager : Manager Value String ℕ
manager = record {
  state = record (initial (flag false) "l") { queue_autostart_enabled = true };
  queue = queue_of (plan_of "1" ∷ []);
  engine = none;
  slot = TaskSlot.new;
  spawned = [];
  handles = 0;
  aborted = [];
  stop_requested = false;
}

-- The environment opens and its worker starts, begins and ends; then a close, and an open that fails.
abbrev events : List (Event Value String ℕ)
events =
    opens none
    ∷ worker_begins 0
    ∷ closes
    ∷ worker_ends 0 true
    ∷ closes
    ∷ opens (some (some "no beam"))
    ∷ starts
    ∷ []

state_closed : manager.state.state ≡ some environment_closed
unfolding initial
state_closed = refl

slot_free : manager.slot.entry ≡ none
unfolding TaskSlot.new
slot_free = refl

timely : AllTimely events manager
unfolding reacts react environment_open env_open env_close maybe_autostart queue_start
    TaskSlot.claim TaskSlot.register TaskSlot.finish TaskSlot.is_active initial TaskSlot.new
    bsrs.Qs.Queue.is_empty bsrs.Engine.Control.engine_state new_engine bsrs.Engine.Control.new
timely = (tt, (refl, (tt, (refl, (tt, (tt, (tt, tt)))))))

reacts-IsConsistent_example : IsConsistent (reacts events manager)
reacts-IsConsistent_example = reacts-IsConsistent events manager timely refl state_closed slot_free

abbrev opened : Manager Value String ℕ
opened = reacts (opens none ∷ []) manager

has_engine : opened.engine ≡ some new_engine
unfolding reacts react environment_open env_open maybe_autostart queue_start bsrs.Qs.Queue.is_empty
    TaskSlot.claim TaskSlot.new
has_engine = refl

reacts-outlives_destroy_example :
    let m' = reacts (destroys ∷ worker_ends 0 true ∷ []) opened in
    (m'.engine ≡ none) × (m'.state.state ≡ some idle)
reacts-outlives_destroy_example = reacts-outlives_destroy 0 true opened new_engine has_engine

-- The 29th of February 2024, at 12:34:56.
secs_to_ymdhms-counts_example :
    (t : Ymdhms) × (n : ℕ) × (md : ℕ) × (secs_to_ymdhms 1709210096 ≡ some t)
    × IsCivil n md t
    × (seconds_of n t ≡ 1709210096)
secs_to_ymdhms-counts_example = secs_to_ymdhms-counts 1709210096 (omega arith)

leap_day :
    secs_to_ymdhms 1709210096
    ≡ some record { year = 2024; month = 2; day = 29; hour = 12; minute = 34; second = 56 }
unfolding secs_to_ymdhms bsrs.Qs.Clock.find_year bsrs.Qs.Clock.find_month bsrs.Qs.Clock.month_days
    bsrs.Qs.Clock.days_in_year bsrs.Qs.Clock.is_leap
leap_day = refl
