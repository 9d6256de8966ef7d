-- ===== src/Qs/Worker/Ends.antt =====
-- The queue worker of crates/bsrs/src/qs/server.rs comes to an end.
use bsrs.Prelude.{
  ℕ, zero, suc, ◌<◌, ◌≤◌, ◌≡◌, refl, ap, ◌∙◌, ◌⊎◌, inl, inr, Bool, true, false, String, none, some,
  [], arith, str_eq, length, Bool-cases, Option-cases,
}
use mathlib.Core.Path.{subst}
use bsrs.Qs.Queue.{QueuedItem, push_history, bump_history_uid}
use bsrs.Qs.Queue.Pops.{Popped-pop_front}
use bsrs.Qs.State.{idle}
use bsrs.Qs.TaskSlot.{finish}
use bsrs.Qs.Worker.{
  Outside, World, Turn, returns, continues, item_completed, idle_out, archive, fail_item, after_run,
  run_plan_item, loop_mode, settle, take_item, worker_turn, execute_queue_loop, plan_args,
}

pub Sum-cases : {A B : Type 0} (t : A ⊎ B) → ((a : A) × (t ≡ inl a)) ⊎ ((b : B) × (t ≡ inr b))
Sum-cases (inl a) = inl (a, refl)
Sum-cases (inr b) = inr (b, refl)

module _ {V : Type 0} (O : Outside V) (meanwhile : World O → World O) where
  abbrev pub queued : World O → ℕ
  queued w = length w.queue.items

  -- The manager is idle, and items are left only with autostart off.
  abbrev pub IsSettled : World O → Type 0
  IsSettled w =
      (w.state.state ≡ some idle)
      × (w.state.current_item ≡ none)
      × (w.state.pause_pending ≡ false)
      × ((w.queue.items ≡ []) ⊎ (w.state.queue_autostart_enabled ≡ false))

  -- What a turn that begins with n items has to show: `K` where it goes on, `Q` where it returns.
  abbrev pub Shows : (World O → Type 0) → (World O → Type 0) → ℕ → Turn O → Type 0
  Shows K Q n (returns w) = Q w
  Shows K Q n (continues w) = K w × (queued w < n)

  Turn-cases :
      (t : Turn O) → ((w : World O) × (t ≡ returns w)) ⊎ ((w : World O) × (t ≡ continues w))
  Turn-cases (returns w) = inl (w, refl)
  Turn-cases (continues w) = inr (w, refl)

  -- Each turn takes an item, so `K` at every turn leads to `Q` at the end.
  pub execute_queue_loop-Shows :
      (K Q : World O → Type 0)
      → ((w : World O) → K w → Shows K Q (queued w) (worker_turn O meanwhile w))
      → ((w : World O) (g : ℕ) → Q w → Q (record w { slot = finish w.slot g }))
      → (fuel generation : ℕ) (w : World O) → K w
      → queued w < fuel
      → (w' : World O) × (execute_queue_loop O meanwhile fuel generation w ≡ some w') × Q w'
  unfolding execute_queue_loop
  execute_queue_loop-Shows K Q h c zero g w k l = absurd (omega arith)
  execute_queue_loop-Shows K Q h c (suc fuel) g w k l =
      elim (Turn-cases (worker_turn O meanwhile w)) [
        | inl (w', e) ↦ (
          record w' { slot = finish w'.slot g },
          rw (execute_queue_loop, e) refl,
          c w' g (subst (Shows K Q (queued w)) e (h w k)),
        )
        | inr (w', e) ↦
            let (k', l') = subst (Shows K Q (queued w)) e (h w k) in
            let (v, e', q) = execute_queue_loop-Shows K Q h c fuel g w' k' (omega arith) in
            (v, rw (execute_queue_loop, e) e', q)
      ]

  -- Off, whatever was queued.
  Shows-fail :
      (K : World O → Type 0) (n : ℕ) (item : QueuedItem V) (r : V) (b : Bool) (w : World O)
      → Shows K IsSettled n (returns (fail_item O meanwhile item r b w))
  unfolding fail_item idle_out archive push_history bump_history_uid
  Shows-fail K n item r b w = (refl, refl, refl, inr refl)

  abbrev RunsOnce : World O → Type 0
  RunsOnce w = loop_mode O meanwhile w.state ≡ false

  -- The clients leave the mode alone and add no item while a plan runs.
  abbrev pub IsQuiet : Type 0
  IsQuiet =
      (w : World O)
      → (queued (meanwhile w) ≤ queued w) × ((meanwhile w).state.queue_mode ≡ w.state.queue_mode)

  run_plan_item-queued :
      (quiet : IsQuiet) (item : QueuedItem V) (plan : O.Plan) (w : World O)
      → RunsOnce w
      → (queued (run_plan_item O meanwhile item plan w).0 ≤ queued w)
        × RunsOnce (run_plan_item O meanwhile item plan w).0
  unfolding run_plan_item archive after_run push_history bump_history_uid
  run_plan_item-queued quiet item plan w m = (
    (quiet _).0,
    ap (λ mode. loop_mode O meanwhile (record (w.state) { queue_mode = mode })) (quiet _).1 ∙ m,
  )

  Shows-settle :
      (n : ℕ) (item : QueuedItem V) (w : World O) (s : String)
      → RunsOnce w
      → queued w < n
      → Shows RunsOnce IsSettled n (settle O meanwhile item (w, s))
  unfolding settle idle_out
  Shows-settle n item w s m l = elim (Bool-cases (item_completed s)) [
    | inl e ↦ rw m (rw e (m, l))
    | inr e ↦ rw m (rw e (refl, refl, refl, inr refl))
  ]

  Shows-take_item :
      (quiet : IsQuiet) (n : ℕ) (item : QueuedItem V) (w : World O)
      → RunsOnce w
      → queued w < n
      → Shows RunsOnce IsSettled n (take_item O meanwhile item w)
  unfolding take_item archive push_history bump_history_uid
  Shows-take_item quiet n item w m l = elim (Bool-cases (str_eq item.item_type "instruction")) [
    | inl e ↦ elim (Bool-cases (str_eq item.name "queue_stop")) [
      | inl e' ↦ rw e (rw e' (m, l))
      | inr e' ↦ rw e (rw e' (Shows-fail RunsOnce n item _ false w))
    ]
    | inr e ↦ elim (Option-cases (O.plan item.name)) [
      | inl e' ↦ rw e (rw e' (Shows-fail RunsOnce n item _ true w))
      | inr (factory, e') ↦ elim (Sum-cases (factory (plan_args O meanwhile item))) [
        | inl (plan, f) ↦
            let (l', m') = run_plan_item-queued quiet item plan w m in
            rw e (rw e' (rw f (Shows-settle n item _ _ m' (omega arith))))
        | inr (r, f) ↦ rw e (rw e' (rw f (Shows-fail RunsOnce n item _ true w)))
      ]
    ]
  ]

  Shows-worker_turn :
      (quiet : IsQuiet) (w : World O)
      → RunsOnce w
      → Shows RunsOnce IsSettled (queued w) (worker_turn O meanwhile w)
  unfolding worker_turn idle_out
  Shows-worker_turn quiet w m = elim (Bool-cases w.state.queue_stop_pending) [
    | inl e ↦ rw e (refl, refl, refl, inr refl)
    | inr e ↦ elim (Popped-pop_front (O.fresh w.drawn) w.queue) [
      | inl (e', p) ↦ rw e (rw p (refl, refl, refl, inl e'))
      | inr (it, rest, e', p) ↦
          rw e (rw p (Shows-take_item quiet (queued w) it _ m (omega (arith, ap length e'))))
    ]
  ]

  -- The worker comes to an end: with the loop mode off, and clients that add no item and leave the
  -- mode alone while a plan runs, `queued w + 1` turns are enough, and then the manager is idle with
  -- no current item and no pause pending, and with items left only if autostart is off.
  pub execute_queue_loop-ends :
      (quiet : IsQuiet) (generation : ℕ) (w : World O)
      → loop_mode O meanwhile w.state ≡ false
      → (w' : World O) × (execute_queue_loop O meanwhile (suc (queued w)) generation w ≡ some w')
        × IsSettled w'
  execute_queue_loop-ends quiet g w m =
      execute_queue_loop-Shows RunsOnce IsSettled (Shows-worker_turn quiet) (λ v k q. q)
        (suc (queued w)) g w m (omega arith)
