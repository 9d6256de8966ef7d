-- ===== src/Engine/Control/Refined.antt =====
-- The control plane of crates/bsrs/src/engine/run_engine.rs refines its specification.
use bsrs.Prelude.{
  ℕ, suc, ◌+◌, ◌-◌, ◌≤◌, ◌<◌, ◌≡◌, refl, sym, ap, ◌∙◌, inl, inr, Bool, true, false, not, ◌&&◌, ◌||◌,
  some, List, [], ◌∷◌, arith, ◌==◌, leb, if◌then◌else◌, length, get_elem?, remove_idx, Option-cases,
}
use bsrs.Prelude.Rows.{All-weaken, get_elem?-map}
use bsrs.Engine.Control.{
  RunControl, new, reset_for_run, mark_paused, pause, wake, resume, request_suspend, release,
  u64_mod,
}
use bsrs.Engine.Control.Spec.{
  Step, begins, pauses, resumes, interrupts, renews, suspends, lifts, System, Spec, spec_lift,
  spec_step, spec_start, lift_task, step, start, steps, spec_steps, of_run, view,
}
use bsrs.Engine.Control.Counting.{
  count, count-current_gone, any-count, of_run-older, of_run-append, map-remove_idx,
  get_elem?-absent, no_wrap, Counted-suc, Counted-begin, Counted-suspend, Counted-lift, Counted,
}

Spec-ext :
    {s t : Spec}
    → s.is_paused ≡ t.is_paused
    → s.manual_pause ≡ t.manual_pause
    → s.tasks ≡ t.tasks
    → s ≡ t
Spec-ext e f g = λ i. record { is_paused = e i; manual_pause = f i; tasks = g i }

-- Waking at the last hold but one is waking when no task of the run is left.
last_hold :
    (holds left : ℕ) (p m : Bool)
    → suc left ≡ holds
    → (if leb holds 1 && not m then false else p) ≡ p && (m || not (left == 0))
last_hold holds left p m e = ground arith

module _ {F : Type 0} where
  abbrev CountedSystem : ℕ → System F → Type 0
  CountedSystem n s = Counted n s.ctl.holds s.ctl.run_gen s.tasks

  release-holds :
      (c : RunControl F) (g : ℕ)
      → (release c g).holds ≡ (if g == c.run_gen then c.holds - 1 else c.holds)
  unfolding release wake
  release-holds c g = ground arith

  release-run_gen : (c : RunControl F) (g : ℕ) → (release c g).run_gen ≡ c.run_gen
  unfolding release wake
  release-run_gen c g = ground arith

  release-manual_pause : (c : RunControl F) (g : ℕ) → (release c g).manual_pause ≡ c.manual_pause
  unfolding release wake
  release-manual_pause c g = ground arith

  release-is_paused :
      (c : RunControl F) (g : ℕ)
      → (release c g).is_paused
        ≡ (if (g == c.run_gen) && (leb c.holds 1 && not c.manual_pause) then false else c.is_paused)
  unfolding release wake
  release-is_paused c g = ground arith

  lift_task-Counted :
      (n i : ℕ) (s : System F)
      → CountedSystem n s
      → CountedSystem (suc n) (lift_task s i (get_elem? s.tasks i))
  lift_task-Counted n i s c = elim (Option-cases (get_elem? s.tasks i)) [
    | inl e ↦ rw e (Counted-suc c)
    | inr (g, e) ↦ rw e (
        rw (release-holds s.ctl g, release-run_gen s.ctl g)
          (Counted-lift n s.ctl.holds s.ctl.run_gen i g s.tasks e c))
  ]

  step-Counted :
      (n : ℕ) (x : Step F) (s : System F)
      → suc n < u64_mod
      → CountedSystem n s
      → CountedSystem (suc n) (step x s)
  unfolding step reset_for_run pause resume wake mark_paused request_suspend
  step-Counted n begins s b c =
      rw (no_wrap s.ctl.run_gen n c.few_runs b)
        (Counted-begin n s.ctl.holds s.ctl.run_gen s.tasks c)
  step-Counted n pauses s b c = Counted-suc c
  step-Counted n resumes s b c = Counted-suc c
  step-Counted n interrupts s b c = Counted-suc c
  step-Counted n renews s b c = Counted-suc c
  step-Counted n (suspends x) s b c =
      rw (no_wrap s.ctl.holds n c.few_holds b)
        (Counted-suspend n s.ctl.holds s.ctl.run_gen s.tasks c)
  step-Counted n (lifts i) s b c = lift_task-Counted n i s c

  view-lifted :
      (n i g : ℕ) (s : System F)
      → CountedSystem n s
      → get_elem? s.tasks i ≡ some g
      → (b : Bool) → (g == s.ctl.run_gen) ≡ b
      → view (record { ctl = release s.ctl g; tasks = remove_idx s.tasks i })
        ≡ spec_lift (view s) i (some b)
  unfolding view
  view-lifted n i g s c e true h =
      Spec-ext
        (release-is_paused s.ctl g
          ∙ rw h (
              last_hold s.ctl.holds (count (remove_idx (of_run s.ctl.run_gen s.tasks) i))
                s.ctl.is_paused s.ctl.manual_pause
                (count-current_gone (of_run s.ctl.run_gen s.tasks) i
                    (get_elem?-map (λ k. k == s.ctl.run_gen) i g s.tasks e ∙ ap some h)
                  ∙ sym c.holds_count))
          ∙ ap (λ a. s.ctl.is_paused && (s.ctl.manual_pause || a))
              (sym (any-count (remove_idx (of_run s.ctl.run_gen s.tasks) i))))
        (release-manual_pause s.ctl g)
        (ap (λ k. of_run k (remove_idx s.tasks i)) (release-run_gen s.ctl g)
          ∙ map-remove_idx (λ k. k == s.ctl.run_gen) s.tasks i)
  view-lifted n i g s c e false h =
      Spec-ext (release-is_paused s.ctl g ∙ rw h refl) (release-manual_pause s.ctl g) (
        ap (λ k. of_run k (remove_idx s.tasks i)) (release-run_gen s.ctl g)
        ∙ map-remove_idx (λ k. k == s.ctl.run_gen) s.tasks i)

  view-lift_task :
      (n i : ℕ) (s : System F)
      → CountedSystem n s
      → view (lift_task s i (get_elem? s.tasks i))
        ≡ spec_lift (view s) i (get_elem? (of_run s.ctl.run_gen s.tasks) i)
  unfolding view
  view-lift_task n i s c = elim (Option-cases (get_elem? s.tasks i)) [
    | inl e ↦ rw e (rw (get_elem?-absent (λ g. g == s.ctl.run_gen) s.tasks i e) refl)
    | inr (g, e) ↦ rw e (
        view-lifted n i g s c e (g == s.ctl.run_gen) refl
        ∙ ap (spec_lift (view s) i) (sym (get_elem?-map (λ k. k == s.ctl.run_gen) i g s.tasks e)))
  ]

  -- One step of the code is one step of the specification.
  view-step :
      (n : ℕ) (x : Step F) (s : System F)
      → suc n < u64_mod
      → CountedSystem n s
      → view (step x s) ≡ spec_step x (view s)
  unfolding view step spec_step reset_for_run pause resume wake mark_paused request_suspend
  view-step n begins s b c = rw (no_wrap s.ctl.run_gen n c.few_runs b) (
      Spec-ext refl refl (
        of_run-older s.ctl.run_gen (suc s.ctl.run_gen) s.tasks
          (All-weaken (λ g. g ≤ s.ctl.run_gen) _ (λ g l. omega arith) s.tasks c.older)))
  view-step n pauses s b c = refl
  view-step n resumes s b c = refl
  view-step n interrupts s b c = refl
  view-step n renews s b c = refl
  view-step n (suspends x) s b c = rw (of_run-append s.ctl.run_gen s.tasks) refl
  view-step n (lifts i) s b c = view-lift_task n i s c

  view-steps_from :
      (xs : List (Step F)) (n : ℕ) (s : System F)
      → n + length xs < u64_mod
      → CountedSystem n s
      → view (steps xs s) ≡ spec_steps xs (view s)
  unfolding steps spec_steps
  view-steps_from [] n s b c = refl
  view-steps_from (x ∷ xs) n s b c =
      view-steps_from xs (suc n) (step x s) (omega (arith, b))
        (step-Counted n x s (omega (arith, b)) c)
      ∙ ap (spec_steps xs) (view-step n x s (omega (arith, b)) c)

  -- The control plane refines its specification: after any sequence of fewer than 2^64 requests,
  -- new runs, interrupts and lifted suspensions, it is paused, by the user or not, exactly as the
  -- specification says, though it knows the suspensions only as a count and their runs only as
  -- generation numbers.
  pub view-steps :
      (xs : List (Step F)) → length xs < u64_mod → view (steps xs start) ≡ spec_steps xs spec_start
  unfolding view new
  view-steps xs b =
      view-steps_from xs 0 start (omega (arith, b))
        (record { holds_count = refl; older = tt; few_runs = omega arith; few_holds = omega arith })
