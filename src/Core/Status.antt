-- ===== src/Core/Status.antt =====
-- crates/bsrs/src/core/status.rs: `Status`, its setter, and how an operation ends.
-- A call-back and a waker are opaque values, and `will_wake` is that of `std::task::Waker`. What a
-- transition sets off comes back as `Fired`, and is run by steps of its own. `World` is the shared `Inner` with the timers that
-- sleep. A timer that elapses is a step of its own, so any delay is modelled. Left out: the
-- progress channels and the statuses that `and` combines.
pub mod Waiters
pub mod Wakers
use bsrs.Prelude.{
  ℕ, zero, suc, Bool, true, false, String, Option, none, some, List, [], ◌∷◌, ◌++◌, map, ◌==◌, any,
  get_elem?, remove_idx, if◌then◌else◌,
}

pub data StatusError : Type 0 where
  cancelled timeout : StatusError
  failed : String → StatusError

-- `End`, a `Result<(), StatusError>`.
pub data End : Type 0 where
  ok : End
  err : StatusError → End

pub data StatusOutcome : Type 0 where
  success : StatusOutcome
  failure : StatusError → StatusOutcome

unfoldable pub outcome : End → StatusOutcome
outcome ok = success
outcome (err e) = failure e

pub data Phase (C W : Type 0) : Type 0 where
  pending : List C → List W → Phase C W
  done : End → Phase C W

-- The call-backs to run, each with what it is given, and the wakers to wake, in order.
pub record Fired (C W : Type 0) : Type 0 where
  pub calls : List (C × StatusOutcome)
  pub wakers : List W

-- What `poll` returns.
pub data Poll : Type 0 where
  waiting : Poll
  ready : End → Poll

abbrev pub give : {C : Type 0} → End → List C → List (C × StatusOutcome)
give e cs = map (λ c. (c, outcome e)) cs

module _ {C W : Type 0} where
  abbrev pub nothing : Fired C W
  nothing = record { calls = []; wakers = [] }

  unfoldable pub finish : End → Phase C W → Phase C W × Fired C W
  finish e (pending callbacks wakers) =
      (done e, record { calls = give e callbacks; wakers = wakers })
  finish e (done e') = (done e', nothing)

  unfoldable pub end_of : Phase C W → Option End
  end_of (pending callbacks wakers) = none
  end_of (done e) = some e

  unfoldable pub add_callback : C → Phase C W → Phase C W × Fired C W
  add_callback c (pending callbacks wakers) = (pending (callbacks ++ c ∷ []) wakers, nothing)
  add_callback c (done e) = (done e, record { calls = (c, outcome e) ∷ []; wakers = [] })

  unfoldable pub poll : (W → W → Bool) → W → Phase C W → Phase C W × Poll
  poll will_wake w (pending callbacks wakers) =
      if any (λ v. will_wake v w) wakers
      then (pending callbacks wakers, waiting)
      else (pending callbacks (wakers ++ w ∷ []), waiting)
  poll will_wake w (done e) = (done e, ready e)

-- `Inner`, with the timers of `success` that sleep, and whether the timer of the time-out runs.
-- The lock is released before what a transition set off is run: `due` are the call-backs that are
-- still to run, with what they are given, `to_wake` the wakers of `finish` that are still to wake.
pub record World (C W : Type 0) : Type 0 where
  pub phase : Phase C W
  pub cancel_requested : Bool
  pub settle_time : ℕ
  pub settling : ℕ
  pub has_timer : Bool
  pub due : List (C × StatusOutcome)
  pub ran : List (C × StatusOutcome)
  pub to_wake : List W
  pub woken : List W

-- `Status::with_timeout`
unfoldable pub with_timeout : {C W : Type 0} → Option ℕ → ℕ → World C W
with_timeout time settle = record {
  phase = pending [] [];
  cancel_requested = false;
  settle_time = settle;
  settling = 0;
  has_timer = elim time [ none ↦ false | some t ↦ true ];
  due = [];
  ran = [];
  to_wake = [];
  woken = [];
}

-- What happens to a status: its setter reports, a consumer cancels it, registers a call-back or
-- polls it, the settle time of a success elapses, or the time-out does; one of the call-backs that
-- are due runs, in any order, since some run on other threads; `finish` wakes the next task.
pub data Step (C W : Type 0) : Type 0 where
  succeeds cancels settles expires wakes : Step C W
  runs : ℕ → Step C W
  fails : StatusError → Step C W
  registers : C → Step C W
  polls : W → Step C W

module _ {C W : Type 0} where
  abbrev pub put : World C W → Phase C W × Fired C W → World C W
  put w r = record w { phase = r.0; due = w.due ++ r.1.calls; to_wake = w.to_wake ++ r.1.wakers }

  unfoldable pub report_success : World C W → World C W
  report_success w =
      if w.settle_time == 0
      then put w (finish ok w.phase)
      else record w { settling = suc w.settling }

  unfoldable pub fail : StatusError → World C W → World C W
  fail e w = put w (finish (err e) w.phase)

  unfoldable pub cancel : World C W → World C W
  cancel w = put (record w { cancel_requested = true }) (finish (err cancelled) w.phase)

  abbrev pub settle_at : ℕ → World C W → World C W
  settle_at zero w = w
  settle_at (suc n) w = put (record w { settling = n }) (finish ok w.phase)

  -- A success whose settle time is over lands.
  unfoldable pub settle : World C W → World C W
  settle w = settle_at w.settling w

  -- The timer of the time-out, which ends when the status is over.
  unfoldable pub expire : World C W → World C W
  expire w =
      if w.has_timer then put (record w { has_timer = false }) (finish (err timeout) w.phase) else w

  abbrev pub run_at : ℕ → Option (C × StatusOutcome) → World C W → World C W
  run_at i none w = w
  run_at i (some x) w = record w { due = remove_idx w.due i; ran = w.ran ++ x ∷ [] }

  abbrev pub wake_next : List W → World C W → World C W
  wake_next [] w = w
  wake_next (v ∷ vs) w = record w { to_wake = vs; woken = w.woken ++ v ∷ [] }

  unfoldable pub step : (W → W → Bool) → Step C W → World C W → World C W
  step ww succeeds w = report_success w
  step ww cancels w = cancel w
  step ww settles w = settle w
  step ww expires w = expire w
  step ww wakes w = wake_next w.to_wake w
  step ww (runs i) w = run_at i (get_elem? w.due i) w
  step ww (fails e) w = fail e w
  step ww (registers c) w = put w (add_callback c w.phase)
  step ww (polls v) w = record w { phase = (poll ww v w.phase).0 }

  unfoldable pub steps : (W → W → Bool) → List (Step C W) → World C W → World C W
  steps ww [] w = w
  steps ww (s ∷ ss) w = steps ww ss (step ww s w)
