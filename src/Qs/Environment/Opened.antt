-- ===== src/Qs/Environment/Opened.antt =====
-- The state machine of the environment, of crates/bsrs/src/qs/dispatch.rs.
use bsrs.Prelude.{
  ℕ, ◌≡◌, refl, ◌⊎◌, inl, inr, Bool, true, false, not, ◌||◌, String, Option, none, some, List, [],
  ◌∷◌, arith, Bool-cases, Option-cases,
}
use bsrs.Qs.Queue.{is_empty}
use bsrs.Qs.State.{idle, executing_queue, environment_closed}
use bsrs.Qs.TaskSlot
use bsrs.Qs.TaskSlot.{Slot}
use bsrs.Qs.Worker.{idle_out}
use bsrs.Engine.Control.{Flags, engine_state, engine_pause, engine_resume, abort, halt, stop}
use bsrs.Qs.Environment.{
  Manager, Job, queue_loop, Reply, ok, err, open_at, close_at, destroy_at, start_at, spawn,
  pause_at, with_at, env_open, env_close, env_destroy, abort_worker, queue_start, maybe_autostart,
  if_ok, environment_open, queue_stop, queue_stop_cancel, queue_autostart, queue_mode_set, re_pause,
  re_with, re_resume, re_abort, re_halt, re_stop, manager_stop, unpause, is_idle, is_idle_state,
  new_engine,
}
use bsrs.Qs.Environment.Events.{
  Event, opens, closes, destroys, starts, stops, cancels_stop, resumes, aborts, halts, stops_run,
  stops_manager, executes, sets_autostart, pauses, sets_mode, edits, adds, worker_begins,
  worker_ends, engine_moves, owns, react, reacts, IsTimely, AllTimely,
}

unclaimed : (b : Bool) (s : Slot) → (b || TaskSlot.is_active s) ≡ false → s.entry ≡ none
unfolding TaskSlot.is_active
unclaimed b s h = elim (Option-cases s.entry) [
  | inl k ↦ k
  | inr (x, k) ↦ absurd (ground (arith, h, k))
]

module _ {V Plan F : Type 0} where
  -- The environment is open or closed, and the manager's state says which; a closed environment
  -- has no worker.
  abbrev pub IsConsistent : Manager V Plan F → Type 0
  IsConsistent m =
      ((m.engine ≡ none) × (m.state.state ≡ some environment_closed) × (m.slot.entry ≡ none))
      ⊎ ((e : Flags F) × (m.engine ≡ some e)
          × ((m.state.state ≡ some idle) ⊎ (m.state.state ≡ some executing_queue)))

  -- An open environment's state.
  open_state :
      (e : Flags F) (m : Manager V Plan F)
      → m.engine ≡ some e
      → IsConsistent m
      → (m.state.state ≡ some idle) ⊎ (m.state.state ≡ some executing_queue)
  open_state e m h (inl (k, s, t)) = absurd (ground (arith, h, k))
  open_state e m h (inr (f, k, s)) = s

  spawn-IsConsistent :
      (job : Job V Plan) (p : Slot × Option ℕ) (e : Flags F) (m : Manager V Plan F)
      → m.engine ≡ some e
      → IsConsistent m
      → IsConsistent (spawn job p m).0
  spawn-IsConsistent job (slot, none) e m h c = c
  spawn-IsConsistent job (slot, some g) e m h c = inr (e, h, open_state e m h c)

  start_at-IsConsistent :
      (job : Job V Plan) (o : Option (Flags F)) (m : Manager V Plan F)
      → m.engine ≡ o
      → IsConsistent m
      → IsConsistent (start_at job o m).0
  start_at-IsConsistent job none m h c = c
  start_at-IsConsistent job (some e) m h c = elim (Bool-cases (is_idle_state m.state.state)) [
    | inl b ↦ simp b (spawn-IsConsistent job (TaskSlot.claim m.slot) e m h c)
    | inr b ↦ simp b c
  ]

  with_at-IsConsistent :
      (f : Flags F → Flags F) (o : Option (Flags F)) (m : Manager V Plan F)
      → m.engine ≡ o
      → IsConsistent m
      → IsConsistent (with_at f o m).0
  with_at-IsConsistent f none m h c = c
  with_at-IsConsistent f (some e) m h c = inr (f e, refl, open_state e m h c)

  pause_at-IsConsistent :
      (defer : Bool) (o : Option (Flags F)) (m : Manager V Plan F)
      → m.engine ≡ o
      → IsConsistent m
      → IsConsistent (pause_at defer o m).0
  pause_at-IsConsistent defer none m h c = c
  pause_at-IsConsistent defer (some e) m h c = elim (Bool-cases (is_idle (engine_state e))) [
    | inl b ↦ simp b c
    | inr b ↦ simp b (inr (engine_pause defer e, refl, open_state e m h c))
  ]

  maybe_autostart-IsConsistent :
      (m : Manager V Plan F) → IsConsistent m → IsConsistent (maybe_autostart m)
  unfolding maybe_autostart queue_start
  maybe_autostart-IsConsistent m c =
      elim (Bool-cases (not m.state.queue_autostart_enabled || is_empty m.queue)) [
        | inl e ↦ simp e c
        | inr e ↦ simp e (start_at-IsConsistent queue_loop m.engine m refl c)
      ]

  open_at-IsConsistent :
      (hook : Option (Option String)) (o : Option (Flags F)) (m : Manager V Plan F)
      → m.engine ≡ o
      → IsConsistent m
      → IsConsistent (open_at hook o m).0
  open_at-IsConsistent hook (some e) m h c = c
  open_at-IsConsistent (some (some x)) none m h (inl (k, s, t)) = inl (k, refl, t)
  open_at-IsConsistent (some (some x)) none m h (inr (f, k, s)) = absurd (ground (arith, h, k))
  open_at-IsConsistent (some none) none m h c = inr (new_engine, refl, inl refl)
  open_at-IsConsistent none none m h c = inr (new_engine, refl, inl refl)

  if_ok-IsConsistent :
      (r : Reply) (m : Manager V Plan F) → IsConsistent m → IsConsistent (if_ok r maybe_autostart m)
  if_ok-IsConsistent ok m c = maybe_autostart-IsConsistent m c
  if_ok-IsConsistent (err e) m c = c

  close_at-IsConsistent :
      (o : Option (Flags F)) (m : Manager V Plan F)
      → m.engine ≡ o
      → IsConsistent m
      → IsConsistent (close_at o m).0
  close_at-IsConsistent none m h c = c
  close_at-IsConsistent (some e) m h c =
      elim (Bool-cases (not (is_idle (engine_state e)) || TaskSlot.is_active m.slot)) [
        | inl b ↦ simp b c
        | inr b ↦ simp b (inl (refl, refl, unclaimed (not (is_idle (engine_state e))) m.slot b))
      ]

  destroy_at-IsConsistent :
      (o : Option (Flags F)) (m : Manager V Plan F)
      → IsConsistent m
      → IsConsistent (destroy_at o m).0
  unfolding abort_worker TaskSlot.take
  destroy_at-IsConsistent none m c = c
  destroy_at-IsConsistent (some e) m c = inl (refl, refl, refl)

  abort_worker-IsConsistent :
      (m : Manager V Plan F) → IsConsistent m → IsConsistent (abort_worker m)
  unfolding abort_worker TaskSlot.take
  abort_worker-IsConsistent m (inl (k, s, t)) = inl (k, s, refl)
  abort_worker-IsConsistent m (inr c) = inr c

  -- A worker whose claim is live is the worker of an open environment.
  owns-open :
      (g : ℕ) (m : Manager V Plan F)
      → owns m.slot g ≡ true
      → IsConsistent m
      → (e : Flags F) × (m.engine ≡ some e)
  owns-open g m h (inl (k, s, t)) = absurd (ground (arith, h, t))
  owns-open g m h (inr (f, k, s)) = (f, k)

  react-IsConsistent :
      (x : Event V Plan F) (m : Manager V Plan F)
      → IsTimely x m
      → IsConsistent m
      → IsConsistent (react x m)
  unfolding react environment_open env_open env_close env_destroy queue_start queue_stop
      queue_stop_cancel re_resume re_abort re_halt re_stop re_with manager_stop queue_autostart
      re_pause queue_mode_set idle_out
  react-IsConsistent (opens hook) m t c =
      if_ok-IsConsistent (open_at hook m.engine m).1 (open_at hook m.engine m).0
        (open_at-IsConsistent hook m.engine m refl c)
  react-IsConsistent closes m t c = close_at-IsConsistent m.engine m refl c
  react-IsConsistent destroys m t c = destroy_at-IsConsistent m.engine m c
  react-IsConsistent starts m t c = start_at-IsConsistent queue_loop m.engine m refl c
  react-IsConsistent stops m t c = c
  react-IsConsistent cancels_stop m t c = c
  react-IsConsistent resumes m t c = with_at-IsConsistent engine_resume m.engine (unpause m) refl c
  react-IsConsistent aborts m t c =
      with_at-IsConsistent (abort "user abort") m.engine (unpause m) refl c
  react-IsConsistent halts m t c =
      with_at-IsConsistent (halt "user halt") m.engine (unpause m) refl c
  react-IsConsistent stops_run m t c = with_at-IsConsistent stop m.engine m refl c
  react-IsConsistent stops_manager m t c = abort_worker-IsConsistent m c
  react-IsConsistent (executes job) m t c = start_at-IsConsistent job m.engine m refl c
  react-IsConsistent (sets_autostart true) m t c = maybe_autostart-IsConsistent _ c
  react-IsConsistent (sets_autostart false) m t c = c
  react-IsConsistent (pauses defer) m t c = pause_at-IsConsistent defer m.engine m refl c
  react-IsConsistent (sets_mode mode) m t c = c
  react-IsConsistent (edits f) m t c = c
  react-IsConsistent (adds f) m t c =
      maybe_autostart-IsConsistent (record m { queue = f m.queue }) c
  react-IsConsistent (worker_begins g) m t c =
      let (e, k) = owns-open g m t c in inr (e, k, inr refl)
  react-IsConsistent (worker_ends g d) m t c =
      let (e, k) = owns-open g m t c in inr (e, k, inl refl)
  react-IsConsistent (engine_moves f) m t c = with_at-IsConsistent f m.engine m refl c

  reacts_from :
      (xs : List (Event V Plan F)) (m : Manager V Plan F)
      → AllTimely xs m
      → IsConsistent m
      → IsConsistent (reacts xs m)
  unfolding reacts
  reacts_from [] m t c = c
  reacts_from (x ∷ xs) m t c = reacts_from xs (react x m) t.1 (react-IsConsistent x m t.0 c)

  -- The environment and the manager's state never disagree: from a closed environment without a
  -- worker, and after any sequence of requests to open, close or destroy the environment, to start,
  -- stop, arm or edit the queue, to execute an item, to pause, resume or end a run or to stop the
  -- manager, mixed with what the worker and the engine do, the engine is there exactly when the
  -- state is idle or executing a queue, and when it is not there the state is closed and no claim is
  -- live. No worker acts once its claim is gone, which the code does not check: an aborted worker is
  -- taken to stop at once.
  pub reacts-IsConsistent :
      (xs : List (Event V Plan F)) (m : Manager V Plan F)
      → AllTimely xs m
      → m.engine ≡ none
      → m.state.state ≡ some environment_closed
      → m.slot.entry ≡ none
      → IsConsistent (reacts xs m)
  reacts-IsConsistent xs m a e s t = reacts_from xs m a (inl (e, s, t))

  -- An aborted worker that ends only after `environment_destroy` makes the state idle while there is
  -- no engine, and the slot does not prevent it: `idle_out` does not look at
  -- the claim.
  pub reacts-outlives_destroy :
      (g : ℕ) (b : Bool) (m : Manager V Plan F) (e : Flags F)
      → m.engine ≡ some e
      → let m' = reacts (destroys ∷ worker_ends g b ∷ []) m in
        (m'.engine ≡ none) × (m'.state.state ≡ some idle)
  unfolding reacts react env_destroy abort_worker TaskSlot.take idle_out
  reacts-outlives_destroy g b m e h = ground (arith, h)
