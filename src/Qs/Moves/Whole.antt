-- ===== src/Qs/Moves/Whole.antt =====
-- The batch move (`queue_item_move_batch`, crates/bsrs/src/qs/dispatch.rs): all of it, or nothing.
use bsrs.Prelude.{
  ℕ, suc, ◌≡◌, ◌≢◌, refl, ◌∙◌, inl, inr, Bool, String, Option, none, some, List, [], ◌∷◌, arith,
  any, All, Option-cases,
}
use mathlib.Core.List.{Perm}
use mathlib.Core.List.Perm
use bsrs.Qs.Json.{Json, str_param, flag_param, array_param}
use bsrs.Qs.Queue
use bsrs.Qs.Queue.{QueuedItem, PlanQueue, has_uid}
use bsrs.Qs.Moves.Texts.{Apart, All-map}
use bsrs.Qs.Moves.Checked.{RefGood, RefGood-order, validate-none, in_order-some}
use bsrs.Qs.Moves.Each.{Held, Moves, move_after_uid-Moves, move_before_uid-Moves, move_to-Moves}
use bsrs.Qs.Moves.{
  queue_item_move_batch, missing_uids, non_null, destination, texts, MoveReply, moved, move_err,
  panics, Destination, to_pos, before, after, move_first, move_rest, move_block, move_all, validate,
}

module _ {V : Type 0} where
  -- Everything was moved, and the items are a permutation.
  abbrev pub Permuted : PlanQueue V → PlanQueue V × MoveReply (List (QueuedItem V)) → Type 0
  Permuted q (q', moved its) = Perm q'.items q.items
  Permuted q (q', move_err e) = ⊥
  Permuted q (q', panics) = ⊥

  Permuted-of_eq :
      (q : PlanQueue V) (r r' : PlanQueue V × MoveReply (List (QueuedItem V)))
      → r ≡ r'
      → Permuted q r'
      → Permuted q r
  Permuted-of_eq q r r' e h = rw e h

  -- The successful moves before the rest of a block.
  Permuted-after :
      (q q' : PlanQueue V) (it : QueuedItem V) (r : PlanQueue V × MoveReply (List (QueuedItem V)))
      → Perm q'.items q.items
      → Permuted q' r
      → Permuted q (elim (r.1) [
        | moved its ↦ (r.0, moved (it ∷ its))
        | move_err e ↦ (r.0, move_err e)
        | panics ↦ (r.0, panics)
      ])
  Permuted-after q q' it (q'', moved its) p h = Perm.trans h p
  Permuted-after q q' it (q'', move_err e) p h = elim h [ ]
  Permuted-after q q' it (q'', panics) p h = elim h [ ]

  Held-moved :
      (q q' : PlanQueue V) (us : List String)
      → ((p : QueuedItem V → Bool) → any p q'.items ≡ any p q.items)
      → All (Held q.items) us
      → All (Held q'.items) us
  Held-moved q q' us s h = All-map us (λ u k. s (has_uid u) ∙ k) h

  move_rest-Permuted :
      (fresh : ℕ → String) (k : ℕ) (q : PlanQueue V) (prev : String) (us : List String)
      → Held q.items prev
      → All (Held q.items) us
      → Apart (prev ∷ us)
      → Permuted q (move_rest fresh k q prev us)
  unfolding move_rest
  move_rest-Permuted fresh k q prev [] hp h a = Perm.refl q.items
  move_rest-Permuted fresh k q prev (u ∷ us) hp h a =
      let m = move_after_uid-Moves (fresh k) q u prev h.0 hp a.0.0 in
      let held = Held-moved q m.to us m.same h.1 in
      Permuted-of_eq q _ _ (step m) (
        Permuted-after q m.to m.it (move_rest fresh (suc k) m.to u us) m.perm
          (move_rest-Permuted fresh (suc k) m.to u us (m.same (has_uid u) ∙ h.0) held a.1))
    where
      step :
          (m : Moves q (Queue.move_after_uid (fresh k) q u prev))
          → move_rest fresh k q prev (u ∷ us) ≡ (
              let (q'', rest) = move_rest fresh (suc k) m.to u us in
              elim rest [
                | moved its ↦ (q'', moved (m.it ∷ its))
                | move_err e ↦ (q'', move_err e)
                | panics ↦ (q'', panics)
              ])
      step m = ground (arith, m.result)

  move_first-Moves :
      (fresh : String) (q : PlanQueue V) (dest : Destination) (u : String) (us : List String)
      → Held q.items u
      → RefGood q dest (u ∷ us)
      → Moves q (move_first fresh q dest u)
  unfolding move_first
  move_first-Moves fresh q (to_pos dest) u us h g = move_to-Moves fresh q u dest h
  move_first-Moves fresh q (before b) u us h g = move_before_uid-Moves fresh q u b h g.0 g.1.0
  move_first-Moves fresh q (after a) u us h g = move_after_uid-Moves fresh q u a h g.0 g.1.0

  move_block-Permuted :
      (fresh : ℕ → String) (q : PlanQueue V) (dest : Destination) (us : List String)
      → All (Held q.items) us
      → Apart us
      → RefGood q dest us
      → Permuted q (move_block fresh q dest us)
  unfolding move_block
  move_block-Permuted fresh q dest [] h a g = Perm.refl q.items
  move_block-Permuted fresh q dest (u ∷ us) h a g =
      let m = move_first-Moves (fresh 0) q dest u us h.0 g in
      Permuted-of_eq q _ _ (step m) (
        Permuted-after q m.to m.it (move_rest fresh 1 m.to u us) m.perm (
          move_rest-Permuted fresh 1 m.to u us (m.same (has_uid u) ∙ h.0)
            (Held-moved q m.to us m.same h.1) a))
    where
      step :
          (m : Moves q (move_first (fresh 0) q dest u))
          → move_block fresh q dest (u ∷ us) ≡ (
              let (q'', rest) = move_rest fresh 1 m.to u us in
              elim rest [
                | moved its ↦ (q'', moved (m.it ∷ its))
                | move_err e ↦ (q'', move_err e)
                | panics ↦ (q'', panics)
              ])
      step m = ground (arith, m.result)

  -- The outcome of a batch move.
  abbrev pub AllMoved : PlanQueue V → PlanQueue V × MoveReply (List (QueuedItem V)) → Type 0
  AllMoved q (q', moved its) = Perm q'.items q.items
  AllMoved q (q', move_err e) = q' ≡ q
  AllMoved q (q', panics) = ⊥

  AllMoved-of_eq :
      (q : PlanQueue V) (r r' : PlanQueue V × MoveReply (List (QueuedItem V)))
      → r ≡ r'
      → AllMoved q r'
      → AllMoved q r
  AllMoved-of_eq q r r' e h = rw e h

  Permuted-AllMoved :
      (q : PlanQueue V) (r : PlanQueue V × MoveReply (List (QueuedItem V)))
      → Permuted q r
      → AllMoved q r
  Permuted-AllMoved q (q', moved its) h = h
  Permuted-AllMoved q (q', move_err e) h = elim h [ ]
  Permuted-AllMoved q (q', panics) h = elim h [ ]

  move_all-AllMoved :
      (fresh : ℕ → String) (q : PlanQueue V) (dest : Destination) (reorder : Bool)
      (us : List String)
      → AllMoved q (move_all fresh q dest reorder us)
  unfolding move_all
  move_all-AllMoved fresh q dest reorder us = elim (Option-cases (validate q dest us)) [
    | inr (e, h) ↦ AllMoved-of_eq q _ (q, move_err e) (ground (arith, h)) refl
    | inl h ↦
        let (held, a, g) = validate-none q dest us h in
        let (vs, o, b, f) = in_order-some q reorder us held a in
        AllMoved-of_eq q _ (move_block fresh q dest vs) (ground (arith, h, o)) (
          Permuted-AllMoved q (move_block fresh q dest vs) (
            move_block-Permuted fresh q dest vs (f (Held q.items) held) b
              (RefGood-order q dest us vs f g)))
  ]

destination-panics :
    (J : Json) (q : PlanQueue J.Value) (p : Option J.Value) (b a : Option String)
    → destination J q p b a ≢ panics
unfolding destination
destination-panics J q none none none = ground arith
destination-panics J q (some v) none none = ground arith
destination-panics J q none (some b) none = ground arith
destination-panics J q none none (some a) = ground arith
destination-panics J q (some v) (some b) a = ground arith
destination-panics J q (some v) none (some a) = ground arith
destination-panics J q none (some b) (some a) = ground arith

-- The batch move never fails half-way: an error response leaves the queue exactly as it was, a
-- success leaves a permutation of the items, and no index is missing when it sorts.
pub move_batch-whole :
    (J : Json) (fresh : ℕ → String) (q : PlanQueue J.Value) (params : J.Value)
    → AllMoved q (queue_item_move_batch J fresh q params)
unfolding queue_item_move_batch
move_batch-whole J fresh q params = elim (Option-cases (array_param J params "uids")) [
  | inl e ↦ AllMoved-of_eq q _ (q, move_err missing_uids) (ground (arith, e)) refl
  | inr (vs, e) ↦
      let pos = non_null J (J.get params "pos_dest") in
      at_destination vs e
        (destination J q pos (str_param J params "before_uid") (str_param J params "after_uid"))
        refl
]
  where
    at_destination :
        (vs : List J.Value)
        → array_param J params "uids" ≡ some vs
        → (d : MoveReply Destination)
        → destination J q
            (non_null J (J.get params "pos_dest"))
            (str_param J params "before_uid")
            (str_param J params "after_uid")
          ≡ d
        → AllMoved q (queue_item_move_batch J fresh q params)
    at_destination vs e (move_err x) d =
        AllMoved-of_eq q _ (q, move_err x) (ground (arith, e, d)) refl
    at_destination vs e panics d = absurd (destination-panics J q _ _ _ d)
    at_destination vs e (moved dest) d =
        AllMoved-of_eq q _ (move_all fresh q dest (flag_param J params "reorder") (texts J vs))
          (ground (arith, e, d))
          (move_all-AllMoved fresh q dest (flag_param J params "reorder") (texts J vs))
