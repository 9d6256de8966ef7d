-- ===== src/Qs/Queue/Order.antt =====
-- Where the operations of the plan queue (crates/bsrs/src/qs/queue.rs) put the items.
use bsrs.Prelude.{
  ℕ, min, ◌≡◌, refl, ap, sym, ◌∙◌, inl, inr, true, String, none, some, List, [], ◌∷◌, ◌++◌, map,
  arith, length, insert_idx, take,
}
use mathlib.Core.List.{append-nil, append_assoc, Perm}
use mathlib.Core.List.Perm
use bsrs.Prelude.Alls.{move-perm, perm_of_eq}
use bsrs.Prelude.Splits.{Lacks, cut, cut_at, insert_idx-at}
use bsrs.Qs.Queue.{
  QueuedItem, PlanQueue, has_uid, move_to, move_before_uid, move_after_uid, push_back, pop_front,
}
use bsrs.Qs.Queue.Cuts.{
  At, with_items, move_to-At, move_to-Lacks, move_before_uid-At, move_before_uid-lost,
  move_after_uid-At, move_after_uid-lost,
}

module _ {V : Type 0} (fresh : String) (q : PlanQueue V) (uid : String) (dest : ℕ) where
  -- `insert_idx` at an index within the list.
  pub put_within :
      (rest : List (QueuedItem V)) (it : QueuedItem V)
      → (before after : List (QueuedItem V)) × (insert_idx rest (min dest (length rest)) it
          ≡ before ++ it ∷ after)
        × (before ++ after ≡ rest)
        × (length before ≡ min dest (length rest))
  put_within rest it =
      let (b, a, e, n) = cut_at (min dest (length rest)) rest (omega arith) in
      (
        b,
        a,
        ap (λ l. insert_idx l (min dest (length rest)) it) e
            ∙ (ap (λ k. insert_idx (b ++ a) k it) (sym n) ∙ insert_idx-at b a it),
        sym e,
        n,
      )

  -- `move_to` of a queued uid returns its item; the item then stands at position `dest`, or last if
  -- the queue is shorter, the others keep their order, and the queue uid is the fresh one.
  pub move_to-places :
      (c : At uid q.items)
      → (before after : List (QueuedItem V)) × (move_to fresh q uid dest
          ≡ (with_items fresh q (before ++ c.found ∷ after), some c.found))
        × (before ++ after ≡ c.before ++ c.after)
        × (length before ≡ min dest (length (c.before ++ c.after)))
  move_to-places c =
      let (b, a, e, k, n) = put_within (c.before ++ c.after) c.found in
      (b, a, move_to-At fresh q uid c dest ∙ ap (λ l. (with_items fresh q l, some c.found)) e, k, n)

  -- `move_to` never loses or copies an item: whatever the uid, the items are a permutation.
  pub move_to-perm : Perm (move_to fresh q uid dest).0.items q.items
  move_to-perm = elim (cut (has_uid uid) q.items) [
    | inr l ↦ perm_of_eq (ap (λ r. r.0.items) (move_to-Lacks fresh q uid dest l))
    | inl c ↦
        let (b, a, e, k, n) = move_to-places c in
        Perm.trans (perm_of_eq (ap (λ r. r.0.items) e))
          (Perm.trans (move-perm c.before c.found c.after b a (sym k)) (perm_of_eq (sym c.whole)))
  ]

module _ {V : Type 0} (fresh : String) (q : PlanQueue V) (uid ref_uid : String)
    (c : At uid q.items) where
  -- `move_before_uid` with the reference among the other items: the item stands immediately before
  -- it, the others keep their order, and the queue uid is the fresh one.
  pub move_before_uid-adjacent :
      (d : At ref_uid (c.before ++ c.after))
      → (before after : List (QueuedItem V)) × (ref : QueuedItem V) × (has_uid ref_uid ref ≡ true)
        × (before ++ ref ∷ after ≡ c.before ++ c.after)
        × (move_before_uid fresh q uid ref_uid
            ≡ (with_items fresh q (before ++ c.found ∷ ref ∷ after), some c.found))
  move_before_uid-adjacent d = (
    d.before,
    d.after,
    d.found,
    d.passes,
    sym d.whole,
    move_before_uid-At fresh q uid ref_uid c d,
  )

  -- `move_after_uid` with the reference among the other items: the item stands immediately after
  -- it, the others keep their order, and the queue uid is the fresh one.
  pub move_after_uid-adjacent :
      (d : At ref_uid (c.before ++ c.after))
      → (before after : List (QueuedItem V)) × (ref : QueuedItem V) × (has_uid ref_uid ref ≡ true)
        × (before ++ ref ∷ after ≡ c.before ++ c.after)
        × (move_after_uid fresh q uid ref_uid
            ≡ (with_items fresh q (before ++ ref ∷ c.found ∷ after), some c.found))
  move_after_uid-adjacent d =
      (d.before, d.after, d.found, d.passes, sym d.whole, move_after_uid-At fresh q uid ref_uid c d)

  -- A move beside a reference that is not among the other items reports a failure, and yet the item
  -- is no longer queued, under an unchanged queue uid: for both directions.
  pub move-loses_item :
      Lacks (has_uid ref_uid) (c.before ++ c.after)
      → (move_before_uid fresh q uid ref_uid ≡ (record q { items = c.before ++ c.after }, none))
        × (move_after_uid fresh q uid ref_uid ≡ (record q { items = c.before ++ c.after }, none))
  move-loses_item l =
      (move_before_uid-lost fresh q uid ref_uid c l, move_after_uid-lost fresh q uid ref_uid c l)

module _ {V : Type 0} where
  -- A sequence of additions, each with the UUID that it draws.
  unfoldable pub push_all : PlanQueue V → List (String × QueuedItem V) → PlanQueue V
  push_all q [] = q
  push_all q ((fresh, it) ∷ rest) = push_all (push_back fresh q it) rest

  -- What a sequence of `pop_front` returns, up to the first that returns nothing.
  unfoldable pub pop_all : List String → PlanQueue V → List (QueuedItem V)
  pop_all [] q = []
  pop_all (fresh ∷ rest) q =
      let (q', it) = pop_front fresh q in elim it [ none ↦ [] | some i ↦ i ∷ pop_all rest q' ]

  pop_all-take :
      (fs : List String) (q : PlanQueue V) (xs : List (QueuedItem V))
      → q.items ≡ xs
      → pop_all fs q ≡ take (length fs) xs
  unfolding pop_all pop_front
  pop_all-take [] q xs e = refl
  pop_all-take (f ∷ fs) q [] e = ground arith
  pop_all-take (f ∷ fs) q (x ∷ xs) e = ground (arith, pop_all-take fs (with_items f q xs) xs refl)

  push_all-items :
      (q : PlanQueue V) (ps : List (String × QueuedItem V))
      → (push_all q ps).items ≡ q.items ++ map (λ p. p.1) ps
  unfolding push_all push_back
  push_all-items q [] = sym (append-nil q.items)
  push_all-items q ((f, it) ∷ ps) =
      push_all-items (push_back f q it) ps ∙ append_assoc q.items (it ∷ []) (map (λ p. p.1) ps)

  -- The queue is first in, first out: pops return the items queued before the additions, and then
  -- the added ones in the order of the additions.
  pub pop_all-push_all :
      (fs : List String) (q : PlanQueue V) (ps : List (String × QueuedItem V))
      → pop_all fs (push_all q ps) ≡ take (length fs) (q.items ++ map (λ p. p.1) ps)
  pop_all-push_all fs q ps =
      pop_all-take fs (push_all q ps) (q.items ++ map (λ p. p.1) ps) (push_all-items q ps)
