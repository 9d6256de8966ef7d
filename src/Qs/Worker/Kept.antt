-- ===== src/Qs/Worker/Kept.antt =====
-- The queue worker of crates/bsrs/src/qs/server.rs archives each item that it takes.
use bsrs.Prelude.{
  ℕ, suc, ◌<◌, ◌≤◌, ◌≡◌, refl, sym, ap, ◌∙◌, inl, inr, Bool, true, false, String, none, some, List,
  [], ◌∷◌, ◌++◌, map, arith, str_eq, length, Bool-cases, Option-cases,
}
use mathlib.Core.List.{append_assoc, append-nil}
use bsrs.Qs.Queue.{QueuedItem, with_result, push_history, bump_history_uid}
use bsrs.Qs.Queue.Pops.{Popped-pop_front}
use bsrs.Qs.State.{executing_queue}
use bsrs.Qs.Worker.{
  Outside, World, returns, item_completed, idle_out, archive, fail_item, after_run, run_plan_item,
  metadata, loop_mode, settle, take_item, worker_turn, execute_queue_loop, plan_args,
}
use bsrs.Qs.Worker.Ends.{queued, IsSettled, Shows, execute_queue_loop-Shows, Sum-cases}

-- An item without its result.
abbrev pub bare : {V : Type 0} → QueuedItem V → QueuedItem V
bare i = record i { result = none }

module _ {V : Type 0} where
  bare-append :
      (h : List (QueuedItem V)) (x : QueuedItem V) (r : V) (rest : List (QueuedItem V))
      → map bare ((h ++ with_result x r ∷ []) ++ rest) ≡ map bare (h ++ x ∷ rest)
  unfolding with_result
  bare-append [] x r rest = refl
  bare-append (y ∷ h) x r rest = ap (◌∷◌ (bare y)) (bare-append h x r rest)

module _ {V : Type 0} (O : Outside V) (meanwhile : World O → World O) where
  -- The clients leave the queue and the mode alone while a plan runs.
  abbrev pub IsAway : Type 0
  IsAway =
      (w : World O)
      → ((meanwhile w).queue ≡ w.queue) × ((meanwhile w).state.queue_mode ≡ w.state.queue_mode)

  -- Between the history `h0` and the items `xs` of the start and the world w: the items archived
  -- since then are the first of `xs`, in order, and `rest` are the others.
  abbrev pub Archived :
      List (QueuedItem V) → List (QueuedItem V) → List (QueuedItem V) → World O → Type 0
  Archived h0 xs rest w =
      (done : List (QueuedItem V)) × (w.queue.history ≡ h0 ++ done)
      × (map bare (done ++ rest) ≡ map bare xs)

  module _ (h0 xs : List (QueuedItem V)) where
    abbrev Going : World O → Type 0
    Going w = (loop_mode O meanwhile w.state ≡ false) × Archived h0 xs w.queue.items w

    abbrev Done : World O → Type 0
    Done w = IsSettled O meanwhile w × Archived h0 xs w.queue.items w

    -- The item in hand goes to the history.
    archive-Archived :
        (item : QueuedItem V) (r : V) (rest : List (QueuedItem V)) (w : World O)
        → Archived h0 xs (item ∷ rest) w
        → Archived h0 xs rest (archive O meanwhile item r w)
    unfolding archive push_history bump_history_uid
    archive-Archived item r rest w (done, e, f) = (
      done ++ with_result item r ∷ [],
      ap (λ h. h ++ with_result item r ∷ []) e ∙ append_assoc h0 done (with_result item r ∷ []),
      bare-append done item r rest ∙ f,
    )

    Shows-fail :
        (n : ℕ) (item : QueuedItem V) (r : V) (b : Bool) (w : World O)
        → Archived h0 xs (item ∷ w.queue.items) w
        → Shows O meanwhile Going Done n (returns (fail_item O meanwhile item r b w))
    unfolding fail_item idle_out archive push_history bump_history_uid
    Shows-fail n item r b w a =
        ((refl, refl, refl, inr refl), archive-Archived item _ w.queue.items w a)

    run_plan_item-Archived :
        (away : IsAway) (item : QueuedItem V) (plan : O.Plan) (w : World O)
        → loop_mode O meanwhile w.state ≡ false
        → Archived h0 xs (item ∷ w.queue.items) w
        → Going (run_plan_item O meanwhile item plan w).0
          × (queued O meanwhile (run_plan_item O meanwhile item plan w).0 ≤ queued O meanwhile w)
    unfolding run_plan_item archive after_run push_history bump_history_uid
    run_plan_item-Archived away item plan w m (done, e, f) =
        let result = O.run plan (metadata O meanwhile item) w.core in
        let running = record w {
          state = record (w.state) { state = some executing_queue; current_item = some item };
          core = result.1;
        } in
        let later = meanwhile running in
        let q = away running in
        (
          (
            ap (λ mode. loop_mode O meanwhile (record (w.state) { queue_mode = mode })) q.1 ∙ m,
            archive-Archived item _ _
                (record later { state = after_run O meanwhile result.0 later.state })
                (
                  done,
                  ap (λ p. p.history) q.0 ∙ e,
                  ap (λ p. map bare (done ++ item ∷ p.items)) q.0 ∙ f,
                ),
          ),
          omega (arith, ap (λ p. length p.items) q.0),
        )

    Shows-settle :
        (n : ℕ) (item : QueuedItem V) (w : World O) (s : String)
        → Going w
        → queued O meanwhile w < n
        → Shows O meanwhile Going Done n (settle O meanwhile item (w, s))
    unfolding settle idle_out
    Shows-settle n item w s k l = elim (Bool-cases (item_completed s)) [
      | inl e ↦ rw k.0 (rw e (k, l))
      | inr e ↦ rw k.0 (rw e ((refl, refl, refl, inr refl), k.1))
    ]

    Shows-take_item :
        (away : IsAway) (n : ℕ) (item : QueuedItem V) (w : World O)
        → loop_mode O meanwhile w.state ≡ false
        → Archived h0 xs (item ∷ w.queue.items) w
        → queued O meanwhile w < n
        → Shows O meanwhile Going Done n (take_item O meanwhile item w)
    unfolding take_item archive push_history bump_history_uid
    Shows-take_item away n item w m a l = elim (Bool-cases (str_eq item.item_type "instruction")) [
      | inl e ↦ elim (Bool-cases (str_eq item.name "queue_stop")) [
        | inl e' ↦ rw e (rw e' ((m, archive-Archived item _ w.queue.items w a), l))
        | inr e' ↦ rw e (rw e' (Shows-fail n item _ false w a))
      ]
      | inr e ↦ elim (Option-cases (O.plan item.name)) [
        | inl e' ↦ rw e (rw e' (Shows-fail n item _ true w a))
        | inr (factory, e') ↦ elim (Sum-cases (factory (plan_args O meanwhile item))) [
          | inl (plan, f) ↦
              let (k, l') = run_plan_item-Archived away item plan w m a in
              rw e (rw e' (rw f (Shows-settle n item _ _ k (omega arith))))
          | inr (r, f) ↦ rw e (rw e' (rw f (Shows-fail n item _ true w a)))
        ]
      ]
    ]

    Shows-worker_turn :
        (away : IsAway) (w : World O)
        → Going w
        → Shows O meanwhile Going Done (queued O meanwhile w) (worker_turn O meanwhile w)
    unfolding worker_turn idle_out
    Shows-worker_turn away w (m, a) = elim (Bool-cases w.state.queue_stop_pending) [
      | inl e ↦ simp e ((refl, refl, refl, inr refl), a)
      | inr e ↦ elim (Popped-pop_front (O.fresh w.drawn) w.queue) [
        | inl (e', p) ↦ simp e (simp p ((refl, refl, refl, inl e'), a))
        | inr (it, rest, e', p) ↦ simp e (
            simp p (
              Shows-take_item away (queued O meanwhile w) it _ m
                (a.0, a.1, ap (λ r. map bare (a.0 ++ r)) (sym e') ∙ a.2)
                (omega (arith, ap length e'))))
      ]
    ]

  -- The worker loses, doubles and reorders no item, whether it drains the queue, is stopped or
  -- meets an item that fails: when it has come to an end, the entries that it added to the history
  -- are, but for their results, the first items of the queue it was given, in order, and the items
  -- left are the others. The loop mode is off, and the clients leave the queue and the mode alone.
  pub execute_queue_loop-archives :
      (away : IsAway) (generation : ℕ) (w : World O)
      → loop_mode O meanwhile w.state ≡ false
      → (w' : World O) × (done : List (QueuedItem V)) × (execute_queue_loop O meanwhile
            (suc (queued O meanwhile w))
            generation
            w
          ≡ some w')
        × (w'.queue.history ≡ w.queue.history ++ done)
        × (map bare (done ++ w'.queue.items) ≡ map bare w.queue.items)
  execute_queue_loop-archives away g w m =
      let h0 = w.queue.history in
      let xs = w.queue.items in
      let (w', e, q) =
        execute_queue_loop-Shows O meanwhile (Going h0 xs) (Done h0 xs)
          (Shows-worker_turn h0 xs away) (λ v k q. q) (suc (queued O meanwhile w)) g w
          (m, ([], sym (append-nil h0), refl)) (omega arith) in
      (w', q.1.0, e, q.1.1, q.1.2)
