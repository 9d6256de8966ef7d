-- ===== src/Engine/Control/Race.antt =====
-- Two methods of `RunControl` that overlap, of crates/bsrs/src/engine/run_engine.rs.
use bsrs.Prelude.{◌+◌, ◌<◌, ◌≡◌, true, false, arith}
use bsrs.Engine.Control.{
  RunControl, Suspension, u64_mod, reset_for_run, mark_paused, suspend_hold, release,
}

-- A new run that begins between the load of the generation in `request_suspend` and its pause is
-- paused by a suspension that cannot lift: when the suspension releases, which is one of an old
-- generation, the run is paused still, not by the user and without a hold. The counter of
-- generations does not wrap.
pub suspend_hold-outlives_reset :
    {F : Type 0} (c : RunControl F) (s : Suspension F)
    → c.run_gen + 1 < u64_mod
    → let (held, gen) = suspend_hold c s in
      let paused = mark_paused (reset_for_run held) in
      let lifted = release paused gen in
      (lifted.is_paused ≡ true) × (lifted.manual_pause ≡ false) × (lifted.holds ≡ 0)
unfolding reset_for_run mark_paused release
suspend_hold-outlives_reset c s h = ground (arith, h)
