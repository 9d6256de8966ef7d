-- ===== src/Qs/TaskSlot/Invariant.antt =====
-- What every interleaving over the claim slot (crates/bsrs/src/qs/task_slot.rs) keeps.
use bsrs.Prelude.{
  ℕ, ◌+◌, ◌<◌, ◌≡◌, ◌≢◌, inl, inr, true, false, Option, none, some, List, [], ◌∷◌, arith, All,
  Option-cases,
}
use bsrs.Prelude.Rows.{All-weaken}
use bsrs.Qs.TaskSlot.{
  Slot, u64_mod, new, claim, register, take, is_active, finish, take_worker_finished,
}
use bsrs.Qs.TaskSlot.Protocol.{
  World, Step, claims, registers, revokes, drops, polls, Reach, here, next, Inv, Tracked, mem,
  without, start, EntryHeld, All-map₂, All-without, mem-without, not-mem_of_lt, add_ended,
}

-- A successful claim: the slot was empty, and now holds the next generation.
claim-some :
    (s : Slot) (g : ℕ)
    → (claim s).1 ≡ some g
    → s.next_gen + 1 < u64_mod
    → (g ≡ s.next_gen)
      × (s.entry ≡ none)
      × ((claim s).0.next_gen ≡ s.next_gen + 1)
      × ((claim s).0.entry ≡ some (record { generation = g; handle = none }))
unfolding claim
claim-some s g h lt = ground arith

register-next_gen : (s : Slot) (g h : ℕ) → (register s g h).0.next_gen ≡ s.next_gen
unfolding register
register-next_gen s g h = ground arith

finish-next_gen : (s : Slot) (g : ℕ) → (finish s g).next_gen ≡ s.next_gen
unfolding finish
finish-next_gen s g = ground arith

claims-Inv :
    (w : World) (g : ℕ) (e : (claim w.slot).1 ≡ some g) (lt : w.slot.next_gen + 1 < u64_mod)
    → Inv w
    → Inv (record w { slot = (claim w.slot).0; guards = g ∷ w.guards })
claims-Inv w g e lt v =
    let (eg, en, nx, ent) = claim-some w.slot g e lt in
    record {
      guards_old = (
        omega arith,
        All-weaken (λ k. k < w.slot.next_gen) _ (λ k p. omega arith) w.guards v.guards_old,
      );
      registered_old =
          All-weaken (λ p. p.0 < w.slot.next_gen) _ (λ p l. omega arith) w.registered
            v.registered_old;
      entry_held = rw ent (ground arith);
      tracked =
          All-map₂ (Tracked w) (λ p. p.0 < w.slot.next_gen) _
            (λ p t l. elim t [
              | inl x ↦ inl x
              | inr y ↦ elim y [
                | inl z ↦ inr (inl (ground arith))
                | inr z ↦ inr (inl (ground arith))
              ]
            ])
            w.registered v.tracked v.registered_old;
    }

-- What `register` does to one pair that was tracked before.
register-Tracked :
    (w : World) (g h : ℕ) (p : ℕ × ℕ)
    → Tracked w p
    → p.0 ≢ g
    → Tracked
        (record w {
          slot = (register w.slot g h).0;
          registered = (g, h) ∷ w.registered;
          ended = add_ended (register w.slot g h).1 w.ended;
        })
        p
unfolding register
register-Tracked w g h p t ne = ground arith

register-Tracked_self :
    (w : World) (g h : ℕ)
    → Tracked
        (record w {
          slot = (register w.slot g h).0;
          registered = (g, h) ∷ w.registered;
          ended = add_ended (register w.slot g h).1 w.ended;
        })
        (g, h)
unfolding register
register-Tracked_self w g h = ground arith

registers-Inv :
    (w : World) (g h : ℕ)
    → g < w.slot.next_gen
    → All (λ p. p.0 ≢ g) w.registered
    → Inv w
    → Inv (record w {
      slot = (register w.slot g h).0;
      registered = (g, h) ∷ w.registered;
      ended = add_ended (register w.slot g h).1 w.ended;
    })
registers-Inv w g h lt fresh v = record {
  guards_old = rw (register-next_gen w.slot g h) v.guards_old;
  registered_old = (
    omega (arith, register-next_gen w.slot g h),
    All-weaken (λ p. p.0 < w.slot.next_gen) _ (λ p l. omega (arith, register-next_gen w.slot g h))
        w.registered v.registered_old,
  );
  entry_held = held;
  tracked = (
    register-Tracked_self w g h,
    All-map₂ (Tracked w) (λ p. p.0 ≢ g) _ (λ p t ne. register-Tracked w g h p t ne) w.registered
        v.tracked fresh,
  );
}
  where
    held : EntryHeld (record w { ended = [] }) (register w.slot g h).0.entry
    held = unfold register in ground (arith, v.entry_held)

take-Tracked :
    (w : World) (p : ℕ × ℕ)
    → Tracked w p
    → Tracked (record w { slot = (take w.slot).0; ended = add_ended (take w.slot).1 w.ended }) p
unfolding take
take-Tracked w p t = ground arith

revokes-Inv :
    (w : World)
    → Inv w
    → Inv (record w { slot = (take w.slot).0; ended = add_ended (take w.slot).1 w.ended })
unfolding take
revokes-Inv w v = record {
  guards_old = v.guards_old;
  registered_old = v.registered_old;
  entry_held = tt;
  tracked = All-weaken (Tracked w) _ (take-Tracked w) w.registered v.tracked;
}

finish-Tracked :
    (w : World) (g : ℕ) (p : ℕ × ℕ)
    → Tracked w p
    → Tracked (record w { slot = finish w.slot g; guards = without g w.guards }) p
unfolding finish
finish-Tracked w g p t = ground (arith, mem-without p.0 g w.guards)

finish-EntryHeld :
    (w : World) (g : ℕ)
    → EntryHeld w w.slot.entry
    → EntryHeld
        (record w { slot = finish w.slot g; guards = without g w.guards })
        (finish w.slot g).entry
unfolding finish
finish-EntryHeld w g h = elim (Option-cases w.slot.entry) [
  | inl e ↦ ground arith
  | inr x ↦ let (a, e) = x in ground (arith, mem-without a.generation g w.guards)
]

drops-Inv :
    (w : World) (g : ℕ)
    → Inv w
    → Inv (record w { slot = finish w.slot g; guards = without g w.guards })
drops-Inv w g v = record {
  guards_old =
      rw (finish-next_gen w.slot g)
        (All-without (λ k. k < w.slot.next_gen) g w.guards v.guards_old);
  registered_old = rw (finish-next_gen w.slot g) v.registered_old;
  entry_held = finish-EntryHeld w g v.entry_held;
  tracked = All-weaken (Tracked w) _ (finish-Tracked w g) w.registered v.tracked;
}

polls-Inv : (w : World) → Inv w → Inv (record w { slot = (take_worker_finished w.slot).0 })
unfolding take_worker_finished
polls-Inv w v = record {
  guards_old = v.guards_old;
  registered_old = v.registered_old;
  entry_held = v.entry_held;
  tracked = All-weaken (Tracked w) _ (λ p t. t) w.registered v.tracked;
}

Step-Inv : {w w' : World} → Inv w → Step w w' → Inv w'
Step-Inv {w} v (claims g e lt) = claims-Inv w g e lt v
Step-Inv {w} v (registers g h lt fresh) = registers-Inv w g h lt fresh v
Step-Inv {w} v revokes = revokes-Inv w v
Step-Inv {w} v (drops g m) = drops-Inv w g v
Step-Inv {w} v polls = polls-Inv w v

start-Inv : Inv start
unfolding new
start-Inv = record { guards_old = tt; registered_old = tt; entry_held = tt; tracked = tt }

-- In every interleaving: all guards and registrations are of generations already issued, the claim
-- in the slot has its guard, and no worker is left untracked: a registered handle was ended, or
-- its worker has returned, or the slot holds it.
pub Reach-Inv : {w : World} → Reach w → Inv w
Reach-Inv here = start-Inv
Reach-Inv (next r s) = Step-Inv (Reach-Inv r) s

stale_finish :
    (s : Slot) (g k : ℕ) {o : Option ℕ}
    → s.entry ≡ some (record { generation = g; handle = o })
    → k ≢ g
    → finish s k ≡ s
unfolding finish
stale_finish s g k e ne = ground arith

ne_of_not-mem : (g k : ℕ) (xs : List ℕ) → mem g xs ≡ false → mem k xs ≡ true → k ≢ g
ne_of_not-mem g k xs a b = λ e. ground (arith, ap_mem e)
  where
    ap_mem : k ≡ g → mem k xs ≡ mem g xs
    ap_mem e = rw e

-- A successful claim in any interleaving, while another guard is outstanding: the slot was free, a
-- second claim is refused and changes nothing, the new generation has no guard yet, and the drop of
-- the other guard does not clear the new claim.
pub claim-exclusive :
    {w : World} (g k : ℕ)
    → Reach w
    → mem k w.guards ≡ true
    → (claim w.slot).1 ≡ some g
    → w.slot.next_gen + 1 < u64_mod
    → let s = (claim w.slot).0 in
      (is_active w.slot ≡ false)
      × (claim s ≡ (s, none))
      × (mem g w.guards ≡ false)
      × (finish s k ≡ s)
unfolding is_active claim
claim-exclusive {w} g k r m e lt =
    let v = Reach-Inv r in
    let (eg, en, nx, ent) = claim-some w.slot g e lt in
    let fresh = not-mem_of_lt g w.guards (rw eg v.guards_old) in
    (
      ground arith,
      ground arith,
      fresh,
      stale_finish (claim w.slot).0 g k ent (ne_of_not-mem g k w.guards fresh m),
    )
