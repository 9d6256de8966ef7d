-- ===== src/Core/Status/Wakers.antt =====
-- The tasks that wait for a status (crates/bsrs/src/core/status.rs) over any sequence of steps.
use bsrs.Prelude.{
  ℕ, zero, suc, ◌≡◌, refl, sym, inl, inr, map, ◌∙◌, Bool, true, Option, none, some, get_elem?, List,
  [], ◌∷◌, ◌++◌, ◌==◌, any, arith, Bool-cases,
}
use mathlib.Core.Path.{subst}
use mathlib.Core.List.{append-nil, append_assoc}
use bsrs.Core.Status.{
  End, ok, err, cancelled, timeout, Phase, pending, done, Poll, waiting, ready, finish, end_of,
  add_callback, poll, World, Step, succeeds, cancels, settles, expires, fails, registers, polls,
  wakes, runs, run_at, wake_next, StatusOutcome, report_success, fail, cancel, settle, settle_at,
  expire, step, steps,
}

module _ {ℓ} {A : Type ℓ} (f : A → Bool) where
  any-append_right : (xs ys : List A) → any f ys ≡ true → any f (xs ++ ys) ≡ true
  any-append_right [] ys h = h
  any-append_right (x ∷ xs) ys h = let rest = any-append_right xs ys h in ground arith

  any-append_left : (xs ys : List A) → any f xs ≡ true → any f (xs ++ ys) ≡ true
  any-append_left [] ys h = ground arith
  any-append_left (x ∷ xs) ys h = elim (Bool-cases (f x)) [
    | inl e ↦ rw e refl
    | inr e ↦ rw e (any-append_left xs ys (ground (arith, h, e)))
  ]

module _ {C W : Type 0} (ww : W → W → Bool) (x : W) where
  -- What a poll by the task `x` promised: a task that has to wait is queued while the status is
  -- pending, and woken once it is done; an end that the task was told stays the end.
  unfoldable pub Promise : Poll → Phase C W → List W → Type 0
  Promise waiting (pending cs ws) woken = any (λ v. ww v x) ws ≡ true
  Promise waiting (done e) woken = any (λ v. ww v x) woken ≡ true
  Promise (ready e) p woken = end_of p ≡ some e

  finish-Promise :
      (e : End) (r : Poll) (p : Phase C W) (woken : List W)
      → Promise r p woken
      → Promise r (finish e p).0 (woken ++ (finish e p).1.wakers)
  unfolding Promise finish end_of
  finish-Promise e waiting (pending cs ws) woken v = any-append_right (λ y. ww y x) woken ws v
  finish-Promise e waiting (done e') woken v = rw (append-nil woken) v
  finish-Promise e (ready e') (pending cs ws) woken v = ground arith
  finish-Promise e (ready e') (done e'') woken v = v

  add_callback-Promise :
      (c : C) (r : Poll) (p : Phase C W) (woken : List W)
      → Promise r p woken
      → Promise r (add_callback c p).0 (woken ++ (add_callback c p).1.wakers)
  unfolding Promise add_callback end_of
  add_callback-Promise c waiting (pending cs ws) woken v = v
  add_callback-Promise c waiting (done e') woken v = rw (append-nil woken) v
  add_callback-Promise c (ready e') (pending cs ws) woken v = v
  add_callback-Promise c (ready e') (done e'') woken v = v

  poll-Promise :
      (y : W) (r : Poll) (p : Phase C W) (woken : List W)
      → Promise r p woken
      → Promise r (poll ww y p).0 woken
  unfolding Promise poll end_of
  poll-Promise y waiting (pending cs ws) woken v = elim (Bool-cases (any (λ z. ww z y) ws)) [
    | inl e ↦ rw e v
    | inr e ↦ rw e (any-append_left (λ z. ww z x) ws (y ∷ []) v)
  ]
  poll-Promise y waiting (done e) woken v = v
  poll-Promise y (ready e) (pending cs ws) woken v = ground arith
  poll-Promise y (ready e) (done e') woken v = v

  abbrev Kept : Poll → World C W → Type 0
  Kept r w = Promise r w.phase (w.woken ++ w.to_wake)

  finish-Kept :
      (e : End) (r : Poll) (w : World C W)
      → Kept r w
      → Promise r (finish e w.phase).0 (w.woken ++ (w.to_wake ++ (finish e w.phase).1.wakers))
  finish-Kept e r w v =
      subst (Promise r (finish e w.phase).0)
        (append_assoc w.woken w.to_wake (finish e w.phase).1.wakers)
        (finish-Promise e r w.phase (w.woken ++ w.to_wake) v)

  add_callback-Kept :
      (c : C) (r : Poll) (w : World C W)
      → Kept r w
      → Promise r
          (add_callback c w.phase).0
          (w.woken ++ (w.to_wake ++ (add_callback c w.phase).1.wakers))
  add_callback-Kept c r w v =
      subst (Promise r (add_callback c w.phase).0)
        (append_assoc w.woken w.to_wake (add_callback c w.phase).1.wakers)
        (add_callback-Promise c r w.phase (w.woken ++ w.to_wake) v)

  settle_at-Kept : (n : ℕ) (r : Poll) (w : World C W) → Kept r w → Kept r (settle_at n w)
  settle_at-Kept zero r w v = v
  settle_at-Kept (suc n) r w v = (finish-Kept ok r w v)

  report_success-Kept : (r : Poll) (w : World C W) → Kept r w → Kept r (report_success w)
  unfolding report_success
  report_success-Kept r w v = elim (Bool-cases (w.settle_time == 0)) [
    | inl e ↦ rw e ((finish-Kept ok r w v))
    | inr e ↦ rw e v
  ]

  expire-Kept : (r : Poll) (w : World C W) → Kept r w → Kept r (expire w)
  unfolding expire
  expire-Kept r w v = elim (Bool-cases w.has_timer) [
    | inl e ↦ rw e ((finish-Kept (err timeout) r w v))
    | inr e ↦ rw e v
  ]

  wake_next-Kept :
      (vs : List W) (r : Poll) (w : World C W) → w.to_wake ≡ vs → Kept r w → Kept r (wake_next vs w)
  wake_next-Kept [] r w e v = v
  wake_next-Kept (y ∷ vs) r w e v = rw (append_assoc w.woken (y ∷ []) vs) (rw e at v)

  run_at-Kept :
      (i : ℕ) (o : Option (C × StatusOutcome)) (r : Poll) (w : World C W)
      → Kept r w
      → Kept r (run_at i o w)
  run_at-Kept i none r w v = v
  run_at-Kept i (some x) r w v = v

  step-Kept : (s : Step C W) (r : Poll) (w : World C W) → Kept r w → Kept r (step ww s w)
  unfolding step fail cancel settle
  step-Kept succeeds r w v = report_success-Kept r w v
  step-Kept cancels r w v = (finish-Kept (err cancelled) r w v)
  step-Kept settles r w v = settle_at-Kept w.settling r w v
  step-Kept expires r w v = expire-Kept r w v
  step-Kept wakes r w v = wake_next-Kept w.to_wake r w refl v
  step-Kept (runs i) r w v = run_at-Kept i (get_elem? w.due i) r w v
  step-Kept (fails e) r w v = (finish-Kept (err e) r w v)
  step-Kept (registers c) r w v = add_callback-Kept c r w v
  step-Kept (polls y) r w v = poll-Promise y r w.phase (w.woken ++ w.to_wake) v

  steps-Kept : (ss : List (Step C W)) (r : Poll) (w : World C W) → Kept r w → Kept r (steps ww ss w)
  unfolding steps
  steps-Kept [] r w v = v
  steps-Kept (s ∷ ss) r w v = steps-Kept ss r (step ww s w) (step-Kept s r w v)

  polls-Promise :
      (p : Phase C W) (woken : List W)
      → ww x x ≡ true
      → Promise (poll ww x p).1 (poll ww x p).0 woken
  unfolding Promise poll end_of
  polls-Promise (pending cs ws) woken h = elim (Bool-cases (any (λ y. ww y x) ws)) [
    | inl e ↦ rw e e
    | inr e ↦ rw e (any-append_right (λ y. ww y x) ws (x ∷ []) (rw h refl))
  ]
  polls-Promise (done e) woken h = refl

  wake_all :
      (vs : List W) (w : World C W)
      → w.to_wake ≡ vs
      → (steps ww (map (λ v. wakes) vs) w).woken ≡ w.woken ++ vs
  unfolding steps step
  wake_all [] w e = sym (append-nil w.woken)
  wake_all (v ∷ vs) w e =
      rw e (wake_all vs (wake_next (v ∷ vs) w) refl ∙ append_assoc w.woken (v ∷ []) vs)

  -- No wake-up is lost and no end is taken back. A task polls a status, and any steps follow. If
  -- the poll told it to wait, then the task is queued, up to `will_wake`, as long as the status is
  -- pending, and once the status is done it has been woken or is among the wakers that the end is
  -- still waking; and one step for each of these wakes them all. If the poll gave it an end, the
  -- status still has that end. The waker of the task is assumed to wake itself.
  pub steps-poll :
      (ss : List (Step C W)) (w : World C W)
      → ww x x ≡ true
      → let r = (poll ww x w.phase).1 in
        let w' = steps ww (polls x ∷ ss) w in
        Promise r w'.phase (w'.woken ++ w'.to_wake)
        × ((steps ww (map (λ v. wakes) w'.to_wake) w').woken ≡ w'.woken ++ w'.to_wake)
  unfolding steps step
  steps-poll ss w h =
      let w' = steps ww (polls x ∷ ss) w in
      (
        steps-Kept ss (poll ww x w.phase).1 (step ww (polls x) w)
            (polls-Promise w.phase (w.woken ++ w.to_wake) h),
        wake_all w'.to_wake w' refl,
      )
