-- ===== src/Tests/Statuses.antt =====
-- The theorems on statuses, each at an input: call-backs and tasks are numbers.
use bsrs.Prelude.{ℕ, ◌≡◌, refl, some, List, [], ◌∷◌, ◌++◌, map, ◌==◌}
use bsrs.Core.Status.{
  err, cancelled, outcome, poll, with_timeout, finish, Step, succeeds, cancels, settles, expires,
  runs, wakes, registers, polls, steps, step, report_success, settle, cancel, expire, add_callback,
}
use bsrs.Core.Status.Waiters.{Served, steps-callbacks}
use bsrs.Core.Status.Wakers.{Promise, steps-poll}

-- A success that settles, is overtaken by a cancellation, and lands too late. The call-back 3, which
-- is registered after the end, runs before 1.
abbrev overtaken : List (Step ℕ ℕ)
overtaken =
    registers 1
    ∷ polls 7
    ∷ succeeds
    ∷ registers 2
    ∷ cancels
    ∷ settles
    ∷ expires
    ∷ runs 1
    ∷ registers 3
    ∷ runs 1
    ∷ wakes
    ∷ []

steps-callbacks_example :
    let w = steps ◌==◌ overtaken (with_timeout (some 9) 5) in
    Served w.phase w.ran w.due (1 ∷ 2 ∷ 3 ∷ [])
    × ((steps ◌==◌ (map (λ x. runs 0) w.due) w).ran ≡ w.ran ++ w.due)
steps-callbacks_example = steps-callbacks ◌==◌ (some 9) 5 overtaken

ran_overtaken :
    (steps ◌==◌ overtaken (with_timeout (some 9) 5)).ran
    ≡ ((2, outcome (err cancelled)) ∷ (3, outcome (err cancelled)) ∷ [])
unfolding steps step with_timeout report_success settle cancel expire add_callback finish poll
ran_overtaken = refl

steps-poll_example :
    let r = (poll ◌==◌ 7 (with_timeout {C = ℕ} (some 9) 5).phase).1 in
    let w' = steps ◌==◌ (polls 7 ∷ overtaken) (with_timeout (some 9) 5) in
    Promise {C = ℕ} ◌==◌ 7 r w'.phase (w'.woken ++ w'.to_wake)
    × ((steps ◌==◌ (map (λ v. wakes) w'.to_wake) w').woken ≡ w'.woken ++ w'.to_wake)
steps-poll_example = steps-poll ◌==◌ 7 overtaken (with_timeout (some 9) 5) refl

woken_overtaken : (steps ◌==◌ overtaken (with_timeout (some 9) 5)).woken ≡ (7 ∷ [])
unfolding steps step with_timeout report_success settle cancel expire add_callback finish poll
woken_overtaken = refl
