-- ===== src/Core/Status/Waiters.antt =====
-- The call-backs of a status (crates/bsrs/src/core/status.rs) over any sequence of steps.
use bsrs.Prelude.{
  ℕ, zero, suc, ◌≡◌, refl, sym, ap, ◌∙◌, inl, inr, map, Bool, Option, none, some, List, [], ◌∷◌,
  ◌++◌, ◌==◌, any, Bool-cases, arith, get_elem?, remove_idx,
}
use mathlib.Core.List.Perm
use bsrs.Prelude.Alls.{perm_of_eq}
use mathlib.Core.List.{Perm, append-nil, append_assoc, map-append}
use bsrs.Core.Status.{
  End, ok, err, cancelled, timeout, StatusOutcome, outcome, Phase, pending, done, give, finish,
  add_callback, poll, World, with_timeout, Step, succeeds, cancels, settles, expires, fails,
  registers, polls, wakes, runs, run_at, wake_next, report_success, fail, cancel, settle, settle_at,
  expire, step, steps,
}

module _ {A : Type 0} where
  remove_idx-perm :
      (xs : List A) (i : ℕ) (x : A) → get_elem? xs i ≡ some x → Perm (x ∷ remove_idx xs i) xs
  remove_idx-perm [] i x e = absurd (ground (arith, e))
  remove_idx-perm (y ∷ ys) zero x e =
      let h : x ≡ y = ground (arith, e) in perm_of_eq (ap (λ z. z ∷ ys) h)
  remove_idx-perm (y ∷ ys) (suc i) x e =
      Perm.trans (Perm.swap y x (remove_idx ys i)) (Perm.cons y (remove_idx-perm ys i x e))

module _ {C W : Type 0} where
  -- The call-backs that a sequence of steps registers, in order.
  abbrev pub registered : List (Step C W) → List C
  registered [] = []
  registered (registers c ∷ ss) = c ∷ registered ss
  registered (_ ∷ ss) = registered ss

  -- While the status is pending, the call-backs are all queued and none has run; once it is done,
  -- each of them has run once or is due, with the outcome of the end.
  unfoldable pub Served :
      Phase C W → List (C × StatusOutcome) → List (C × StatusOutcome) → List C → Type 0
  Served (pending cs ws) ran due rs = (ran ≡ []) × (due ≡ []) × (cs ≡ rs)
  Served (done e) ran due rs = Perm (ran ++ due) (give e rs)

  finish-Served :
      (e : End) (p : Phase C W) (ran due : List (C × StatusOutcome)) (rs : List C)
      → Served p ran due rs
      → Served (finish e p).0 ran (due ++ (finish e p).1.calls) rs
  unfolding Served finish
  finish-Served e (pending cs ws) ran due rs v = rw (v.0, v.1, v.2) (Perm.refl (give e rs))
  finish-Served e (done e') ran due rs v = rw (append-nil due) v

  add_callback-Served :
      (c : C) (p : Phase C W) (ran due : List (C × StatusOutcome)) (rs : List C)
      → Served p ran due rs
      → Served (add_callback c p).0 ran (due ++ (add_callback c p).1.calls) (rs ++ c ∷ [])
  unfolding Served add_callback
  add_callback-Served c (pending cs ws) ran due rs v =
      (v.0, append-nil due ∙ v.1, ap (λ l. l ++ c ∷ []) v.2)
  add_callback-Served c (done e) ran due rs v =
      Perm.trans (perm_of_eq (sym (append_assoc ran due ((c, outcome e) ∷ [])))) (
        Perm.trans (Perm.append_right ((c, outcome e) ∷ []) v)
          (perm_of_eq (sym (map-append (λ x. (x, outcome e)) rs (c ∷ [])))))

  poll-Served :
      (ww : W → W → Bool) (x : W) (p : Phase C W) (ran due : List (C × StatusOutcome)) (rs : List C)
      → Served p ran due rs
      → Served (poll ww x p).0 ran due rs
  unfolding Served poll
  poll-Served ww x (pending cs ws) ran due rs v = elim (Bool-cases (any (λ y. ww y x) ws)) [
    | inl e ↦ rw e v
    | inr e ↦ rw e v
  ]
  poll-Served ww x (done e) ran due rs v = v

  abbrev WorldServed : World C W → List C → Type 0
  WorldServed w rs = Served w.phase w.ran w.due rs

  settle_at-Served :
      (n : ℕ) (w : World C W) (rs : List C) → WorldServed w rs → WorldServed (settle_at n w) rs
  settle_at-Served zero w rs v = v
  settle_at-Served (suc n) w rs v = finish-Served ok w.phase w.ran w.due rs v

  report_success-Served :
      (w : World C W) (rs : List C) → WorldServed w rs → WorldServed (report_success w) rs
  unfolding report_success
  report_success-Served w rs v = elim (Bool-cases (w.settle_time == 0)) [
    | inl e ↦ rw e (finish-Served ok w.phase w.ran w.due rs v)
    | inr e ↦ rw e v
  ]

  expire-Served : (w : World C W) (rs : List C) → WorldServed w rs → WorldServed (expire w) rs
  unfolding expire
  expire-Served w rs v = elim (Bool-cases w.has_timer) [
    | inl e ↦ rw e (finish-Served (err timeout) w.phase w.ran w.due rs v)
    | inr e ↦ rw e v
  ]

  run_at-Served :
      (p : Phase C W) (i : ℕ) (x : C × StatusOutcome) (ran due : List (C × StatusOutcome))
      (rs : List C)
      → get_elem? due i ≡ some x
      → Served p ran due rs
      → Served p (ran ++ x ∷ []) (remove_idx due i) rs
  unfolding Served
  run_at-Served (pending cs ws) i x ran due rs e v = absurd (ground (arith, e, v.1))
  run_at-Served (done o) i x ran due rs e v =
      Perm.trans (perm_of_eq (append_assoc ran (x ∷ []) (remove_idx due i)))
        (Perm.trans (Perm.append_left ran (remove_idx-perm due i x e)) v)

  runs-Served :
      (i : ℕ) (o : Option (C × StatusOutcome)) (w : World C W) (rs : List C)
      → get_elem? w.due i ≡ o
      → WorldServed w rs
      → WorldServed (run_at i o w) rs
  runs-Served i none w rs e v = v
  runs-Served i (some x) w rs e v = run_at-Served w.phase i x w.ran w.due rs e v

  wakes-Served :
      (vs : List W) (w : World C W) (rs : List C)
      → WorldServed w rs
      → WorldServed (wake_next vs w) rs
  wakes-Served [] w rs v = v
  wakes-Served (x ∷ vs) w rs v = v

  -- No further call-back.
  none_more : (w : World C W) (rs : List C) → WorldServed w rs → WorldServed w (rs ++ [])
  none_more w rs v = rw (append-nil rs) v

  step-Served :
      (ww : W → W → Bool) (s : Step C W) (w : World C W) (rs : List C)
      → WorldServed w rs
      → WorldServed (step ww s w) (rs ++ registered (s ∷ []))
  unfolding step fail cancel settle
  step-Served ww succeeds w rs v = none_more (report_success w) rs (report_success-Served w rs v)
  step-Served ww cancels w rs v =
      none_more (cancel w) rs (finish-Served (err cancelled) w.phase w.ran w.due rs v)
  step-Served ww settles w rs v =
      none_more (settle_at w.settling w) rs (settle_at-Served w.settling w rs v)
  step-Served ww expires w rs v = none_more (expire w) rs (expire-Served w rs v)
  step-Served ww wakes w rs v = none_more (wake_next w.to_wake w) rs (wakes-Served w.to_wake w rs v)
  step-Served ww (runs i) w rs v =
      none_more (run_at i (get_elem? w.due i) w) rs (runs-Served i (get_elem? w.due i) w rs refl v)
  step-Served ww (fails e) w rs v =
      none_more (fail e w) rs (finish-Served (err e) w.phase w.ran w.due rs v)
  step-Served ww (registers c) w rs v = add_callback-Served c w.phase w.ran w.due rs v
  step-Served ww (polls x) w rs v =
      none_more (step ww (polls x) w) rs (poll-Served ww x w.phase w.ran w.due rs v)

  registered-step :
      (s : Step C W) (ss : List (Step C W))
      → registered (s ∷ []) ++ registered ss ≡ registered (s ∷ ss)
  registered-step succeeds ss = refl
  registered-step cancels ss = refl
  registered-step settles ss = refl
  registered-step expires ss = refl
  registered-step wakes ss = refl
  registered-step (runs i) ss = refl
  registered-step (fails e) ss = refl
  registered-step (registers c) ss = refl
  registered-step (polls x) ss = refl

  steps-Served :
      (ww : W → W → Bool) (ss : List (Step C W)) (w : World C W) (rs : List C)
      → WorldServed w rs
      → WorldServed (steps ww ss w) (rs ++ registered ss)
  unfolding steps
  steps-Served ww [] w rs v = none_more w rs v
  steps-Served ww (s ∷ ss) w rs v =
      let rest =
        steps-Served ww ss (step ww s w) (rs ++ registered (s ∷ [])) (step-Served ww s w rs v) in
      rw
        (sym (
          append_assoc rs (registered (s ∷ [])) (registered ss)
          ∙ ap (λ l. rs ++ l) (registered-step s ss)))
        rest

  run_all :
      (ww : W → W → Bool) (xs : List (C × StatusOutcome)) (w : World C W)
      → w.due ≡ xs
      → (steps ww (map (λ x. runs 0) xs) w).ran ≡ w.ran ++ xs
  unfolding steps step
  run_all ww [] w e = sym (append-nil w.ran)
  run_all ww (x ∷ xs) w e = rw e (
      run_all ww xs (record w { due = xs; ran = w.ran ++ x ∷ [] }) refl
      ∙ append_assoc w.ran (x ∷ []) xs)

  -- Whatever happens to a status, in whatever order: while it is pending, every call-back that was
  -- registered is queued and none has run; once it is done, those that have run and those that are
  -- due are together the registered ones, each once, whether registered before the end or after it,
  -- and all with the outcome of that one end; and one step for each that is due runs them all.
  pub steps-callbacks :
      (ww : W → W → Bool) (time : Option ℕ) (settle_ns : ℕ) (ss : List (Step C W))
      → let w = steps ww ss (with_timeout time settle_ns) in
        Served w.phase w.ran w.due (registered ss)
        × ((steps ww (map (λ x. runs 0) w.due) w).ran ≡ w.ran ++ w.due)
  unfolding Served with_timeout
  steps-callbacks ww time settle_ns ss =
      let w = steps ww ss (with_timeout time settle_ns) in
      (
        steps-Served ww ss (with_timeout time settle_ns) [] (refl, refl, refl),
        run_all ww w.due w refl,
      )
