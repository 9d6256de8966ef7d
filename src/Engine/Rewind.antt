-- ===== src/Engine/Rewind.antt =====
-- The rewind of crates/bsrs/src/engine/run_engine.rs: the message cache, the replay queue, and what
-- the messages of the plan and a pause do to them and to the bundlers of the open runs.
-- A plan's stream is the list of its items. `none` is the `Err` of a handler. The handlers of the
-- other messages change open runs only: `runs_after` is what they do there.
pub mod Replay
use bsrs.Prelude.{
  ℕ, zero, suc, Bool, true, false, not, ◌&&◌, String, Option, none, some, List, [], ◌∷◌, ◌++◌, map,
  any, if◌then◌else◌,
}
use bsrs.Runs.Documents.{Payload}
use bsrs.Runs.Bundler
use bsrs.Runs.Bundler.{RunBundler}
use bsrs.Engine.Msg.{
  Parts, Msg, in_run, stage, unstage, monitor, unmonitor, checkpoint, clear_checkpoint, subscribe,
  unsubscribe, rewindable, is_cacheable,
}

-- An item of a plan's stream: a message, or one whose sender waits for its result.
pub data PlanItem (P : Parts) : Type 0 where
  bare respond : Msg P → PlanItem P

-- Of a `RunSlot`, what a rewind reads or writes.
pub record RunSlot (D : Payload) (P : Parts) : Type 0 where
  pub bundler : RunBundler D
  pub bundle_asset_objs : List P.Object

-- Of the engine's state, what belongs to the rewind, and the plan still to come.
pub record Region (D : Payload) (P : Parts) : Type 0 where
  pub msg_cache : List (Msg P)
  pub replay_queue : List (Msg P)
  pub can_rewind : Bool
  pub runs : List (Option String × RunSlot D P)
  pub plan : List (PlanItem P)

-- What the arm of `handle` for a message does to the rewindable region.
pub data Commit : Type 0 where
  keeps resets opens closes : Commit
  sets : Bool → Commit

unfoldable pub commit_of : {P : Parts} → Msg P → Commit
commit_of (in_run run inner) = commit_of inner
commit_of checkpoint = opens
commit_of clear_checkpoint = closes
commit_of (rewindable b) = sets b
commit_of (stage o) = resets
commit_of (unstage o) = resets
commit_of (monitor o n) = resets
commit_of (unmonitor o) = resets
commit_of (subscribe c f) = resets
commit_of (unsubscribe i) = resets
commit_of _ = keeps

-- `InRun` in `InRun` is refused.
unfoldable pub is_nested : {P : Parts} → Msg P → Bool
is_nested (in_run run (in_run other inner)) = true
is_nested _ = false

module _ {D : Payload} {P : Parts} where
  abbrev pub on_bundlers :
      (RunBundler D → RunBundler D)
      → List (Option String × RunSlot D P)
      → List (Option String × RunSlot D P)
  on_bundlers f = map (λ e. (e.0, record (e.1) { bundler = f e.1.bundler }))

  unfoldable pub any_bundling : Region D P → Bool
  any_bundling r = any (λ e. Bundler.is_bundling e.1.bundler) r.runs

  unfoldable pub reset_checkpoint_state : Region D P → Region D P
  reset_checkpoint_state r = record r {
    msg_cache = [];
    runs = on_bundlers Bundler.reset_checkpoint_state r.runs;
  }

  unfoldable pub clear_region : Region D P → Region D P
  clear_region r = record r {
    can_rewind = false;
    msg_cache = [];
    runs = on_bundlers Bundler.clear_checkpoint r.runs;
  }

  -- The rewind of one open run.
  unfoldable pub rewind_slot : RunSlot D P → RunSlot D P
  rewind_slot s = record { bundler = Bundler.rewind s.bundler; bundle_asset_objs = [] }

  abbrev pub rewind_runs :
      List (Msg P) → List (Option String × RunSlot D P) → List (Option String × RunSlot D P)
  rewind_runs [] runs = runs
  rewind_runs (m ∷ cache) runs = map (λ e. (e.0, rewind_slot e.1)) runs

  -- What `on_resume` does to the state: the cache goes to the end of the replay queue.
  unfoldable pub on_resume : Region D P → Region D P
  on_resume r = record r {
    msg_cache = [];
    runs = rewind_runs r.msg_cache r.runs;
    replay_queue = r.replay_queue ++ r.msg_cache;
  }

  -- What `throw_into_plan` does to the queue, when a region of the plan is there to catch.
  unfoldable pub drop_replay : Region D P → Region D P
  drop_replay r = record r { replay_queue = [] }

  abbrev pub cached : Region D P → Msg P → Region D P
  cached r m =
      if r.can_rewind && is_cacheable m then record r { msg_cache = r.msg_cache ++ m ∷ [] } else r

  abbrev pub pull_plan : Region D P → List (PlanItem P) → Region D P × Option (Msg P)
  pull_plan r [] = (r, none)
  pull_plan r (respond m ∷ plan) = (record r { plan = plan }, some m)
  pull_plan r (bare m ∷ plan) = (cached (record r { plan = plan }) m, some m)

  abbrev pub pull_replay : Region D P → List (Msg P) → Region D P × Option (Msg P)
  pull_replay r [] = pull_plan r r.plan
  pull_replay r (m ∷ queue) = (record r { replay_queue = queue }, some m)

  unfoldable pub pull_msg : Region D P → Region D P × Option (Msg P)
  pull_msg r = pull_replay r r.replay_queue

  module _
      (runs_after : Msg P
        → List (Option String × RunSlot D P)
        → List (Option String × RunSlot D P)) where
    abbrev pub commit : Commit → Region D P → Option (Region D P)
    commit keeps r = some r
    commit resets r = some (reset_checkpoint_state r)
    commit opens r =
        if any_bundling r
        then none
        else some (record (reset_checkpoint_state r) { can_rewind = true })
    commit closes r = some (clear_region r)
    commit (sets true) r =
        some (if r.can_rewind then r else reset_checkpoint_state (record r { can_rewind = true }))
    commit (sets false) r =
        some (if r.can_rewind then reset_checkpoint_state (record r { can_rewind = false }) else r)

    -- `handle`, where it succeeds on the message's devices.
    unfoldable pub handle : Msg P → Region D P → Option (Region D P)
    handle m r =
        if is_nested m then none else commit (commit_of m) (record r { runs = runs_after m r.runs })

    -- The messages that n turns of the loop handle, and the state they leave; a turn ends the plan
    -- or the run where there is no message or the handler fails.
    abbrev pub with_msg : Msg P → Option (Region D P) → Option (Msg P × Region D P)
    with_msg m none = none
    with_msg m (some r) = some (m, r)

    abbrev pub next_turn : Region D P × Option (Msg P) → Option (Msg P × Region D P)
    next_turn (r, none) = none
    next_turn (r, some m) = with_msg m (handle m r)

    unfoldable pub turn : Region D P → Option (Msg P × Region D P)
    turn r = next_turn (pull_msg r)

    abbrev pub add_turn :
        Msg P → Option (List (Msg P) × Region D P) → Option (List (Msg P) × Region D P)
    add_turn m none = none
    add_turn m (some (ms, r)) = some (m ∷ ms, r)

    abbrev pub chain :
        Option (Msg P × Region D P)
        → (Region D P → Option (List (Msg P) × Region D P))
        → Option (List (Msg P) × Region D P)
    chain none go = none
    chain (some (m, r)) go = add_turn m (go r)

    unfoldable pub turns : ℕ → Region D P → Option (List (Msg P) × Region D P)
    turns zero r = some ([], r)
    turns (suc n) r = chain (turn r) (λ r'. turns n r')
