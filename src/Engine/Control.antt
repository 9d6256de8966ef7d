-- ===== src/Engine/Control.antt =====
-- The control plane of crates/bsrs/src/engine/run_engine.rs: `RunControl`, the interrupts, and the
-- requests that the run loop takes.
-- The counters are `u64` and `usize`. A token is cancelled or not; a new one is not. `notify_waiters`
-- is counted. The fields are separate atomics in the code, without a lock; here a method is one step,
-- and Race alone has two methods that overlap.
pub mod Spec
pub mod Counting
pub mod Refined
pub mod Race
use bsrs.Prelude.{
  ℕ, suc, ◌+◌, ◌-◌, ◌%◌, ◌^◌, Bool, true, false, not, ◌&&◌, ◌||◌, String, Option, none, some, ◌==◌,
  leb, if◌then◌else◌,
}

abbrev pub u64_mod : ℕ
u64_mod = 2 ^ 64

pub data EngineRunState : Type 0 where
  idle running paused aborting halting : EngineRunState

-- `Suspension`; the two callbacks are values that the control plane only passes on.
pub record Suspension (F : Type 0) : Type 0 where
  pub justification : String
  pub pre_plan : Option F
  pub post_plan : Option F

pub record RunControl (F : Type 0) : Type 0 where
  pub is_running : Bool
  pub is_paused : Bool
  pub permits : ℕ
  pub pause_edges : ℕ
  pub cancelled : Bool
  pub pause_seq : ℕ
  pub pending_suspend : Option (Suspension F)
  pub holds : ℕ
  pub manual_pause : Bool
  pub run_gen : ℕ

-- `RunControl::new`
unfoldable pub new : {F : Type 0} → RunControl F
new = record {
  is_running = false;
  is_paused = false;
  permits = 0;
  pause_edges = 0;
  cancelled = false;
  pause_seq = 0;
  pending_suspend = none;
  holds = 0;
  manual_pause = false;
  run_gen = 0;
}

module _ {F : Type 0} where
  unfoldable pub reset_for_run : RunControl F → RunControl F
  reset_for_run c = record c {
    run_gen = (c.run_gen + 1) % u64_mod;
    is_paused = false;
    manual_pause = false;
    holds = 0;
    pending_suspend = none;
    cancelled = false;
  }

  unfoldable pub mark_paused : RunControl F → RunControl F
  mark_paused c = record c {
    is_paused = true;
    pause_seq = (c.pause_seq + 1) % u64_mod;
    cancelled = true;
    pause_edges = suc c.pause_edges;
  }

  unfoldable pub pause : RunControl F → RunControl F
  unfolding mark_paused
  pause c = mark_paused (record c { manual_pause = true })

  unfoldable pub wake : RunControl F → RunControl F
  wake c = record c { is_paused = false; permits = suc c.permits }

  unfoldable pub resume : RunControl F → RunControl F
  unfolding wake
  resume c = wake (record c { manual_pause = false })

  -- What `request_suspend` does before it pauses, with the generation that it loads.
  abbrev pub suspend_hold : RunControl F → Suspension F → RunControl F × ℕ
  suspend_hold c suspension =
      (record c { pending_suspend = some suspension; holds = (c.holds + 1) % u64_mod }, c.run_gen)

  -- The generation that the spawned task passes to `release` comes back.
  unfoldable pub request_suspend : RunControl F → Suspension F → RunControl F × ℕ
  unfolding mark_paused
  request_suspend c suspension = let (c', gen) = suspend_hold c suspension in (mark_paused c', gen)

  unfoldable pub release : RunControl F → ℕ → RunControl F
  unfolding wake
  release c gen =
      let before = c.holds in
      let c' = record c { holds = before - 1 } in
      let lifted = if leb before 1 && not c.manual_pause then wake c' else c' in
      if gen == c.run_gen then lifted else c

-- The engine's flags beside the control plane.
pub record Flags (F : Type 0) : Type 0 where
  pub ctl : RunControl F
  pub deferred_pause : Bool
  pub is_aborting : Bool
  pub is_halting : Bool
  pub is_stopping : Bool
  pub interrupt_seq : ℕ
  pub interrupt_reason : String

pub data Interrupt : Type 0 where
  abort_run stop_run : Interrupt

pub data InterruptRequest : Type 0 where
  halt_request : InterruptRequest
  throw_request : Interrupt → InterruptRequest

module _ {F : Type 0} where
  -- `RunEngine::state`
  unfoldable pub engine_state : Flags F → EngineRunState
  engine_state f =
      if f.is_halting
      then halting
      else if f.is_aborting
      then aborting
      else if f.ctl.is_paused
      then paused
      else if f.ctl.is_running
      then running
      else idle

  -- `RunEngine::pause`
  unfoldable pub engine_pause : Bool → Flags F → Flags F
  engine_pause defer f =
      if defer then record f { deferred_pause = true } else record f { ctl = pause f.ctl }

  -- `RunEngine::resume`
  unfoldable pub engine_resume : Flags F → Flags F
  engine_resume f = record f { ctl = resume f.ctl }

  -- What a `Checkpoint` does last: a deferred pause is applied.
  unfoldable pub apply_deferred : Flags F → Flags F
  apply_deferred f =
      if f.deferred_pause then record f { deferred_pause = false; ctl = pause f.ctl } else f

  unfoldable pub request_interrupt : Flags F → Flags F
  request_interrupt f = record f {
    interrupt_seq = (f.interrupt_seq + 1) % u64_mod;
    ctl = wake (record (f.ctl) { cancelled = true });
  }

  unfoldable pub abort : String → Flags F → Flags F
  abort reason f =
      request_interrupt
        (record f { interrupt_reason = reason; is_aborting = true; is_stopping = false })

  unfoldable pub halt : String → Flags F → Flags F
  halt reason f =
      request_interrupt
        (record f { interrupt_reason = reason; is_halting = true; is_aborting = true })

  unfoldable pub stop : Flags F → Flags F
  stop f = request_interrupt (record f { is_stopping = true; is_aborting = true })

  -- The sequence number that the loop remembers comes back with the request.
  unfoldable pub take_interrupt : Flags F → ℕ → Flags F × ℕ × Option InterruptRequest
  take_interrupt f thrown_seq = if f.interrupt_seq == thrown_seq then (f, thrown_seq, none) else (
    record f { ctl = record (f.ctl) { cancelled = false } },
    f.interrupt_seq,
    some (
        if f.is_halting
        then halt_request
        else if f.is_stopping
        then throw_request stop_run
        else throw_request abort_run),
  )

  unfoldable pub interrupt_pending : Flags F → ℕ → Bool
  interrupt_pending f thrown_seq = not (f.interrupt_seq == thrown_seq)

  unfoldable pub pause_pending : Flags F → ℕ → Bool
  pause_pending f pause_seen = not (f.ctl.pause_seq == pause_seen)

  unfoldable pub ack_pause : Flags F → ℕ → Flags F × ℕ
  ack_pause f pause_seen =
      if f.ctl.pause_seq == pause_seen
      then (f, pause_seen)
      else (record f { ctl = record (f.ctl) { cancelled = false } }, f.ctl.pause_seq)
