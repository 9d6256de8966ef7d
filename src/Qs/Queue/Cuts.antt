-- ===== src/Qs/Queue/Cuts.antt =====
-- The queue's operations (crates/bsrs/src/qs/queue.rs) where the search for a uid has an outcome:
-- a cut of the items at the first item with that uid, or no such item.
use bsrs.Prelude.{
  ℕ, min, ◌≡◌, true, false, String, none, some, List, ◌∷◌, ◌++◌, arith, length, insert_idx,
}
use bsrs.Prelude.Splits.{
  Cut, Lacks, position-Cut, position-Lacks, get_elem?-Cut, remove_idx-Cut, set-Cut, insert_idx-Cut,
  insert_idx-Cut_suc,
}
use bsrs.Qs.Queue.{
  QueuedItem, PlanQueue, has_uid, bump_queue_uid, take_out, move_to, move_before_uid,
  move_after_uid, update, replace_at_uid, remove_by_uid, insert_before_uid, insert_after_uid,
}

module _ {V : Type 0} where
  -- Where a queue holds `uid`.
  abbrev pub At : String → List (QueuedItem V) → Type 0
  At uid items = Cut (has_uid uid) items

  -- The queue after its items became `items` and its uid `fresh`.
  abbrev pub with_items : String → PlanQueue V → List (QueuedItem V) → PlanQueue V
  with_items fresh q items = record q { items = items; queue_uid = fresh }

module _ {V : Type 0} (fresh : String) (q : PlanQueue V) (uid : String) where
  pub take_out-At : (c : At uid q.items) → take_out q uid ≡ some (c.found, c.before ++ c.after)
  unfolding take_out
  take_out-At c = ground (arith, position-Cut c, get_elem?-Cut c, remove_idx-Cut c)

  pub take_out-Lacks : Lacks (has_uid uid) q.items → take_out q uid ≡ none
  unfolding take_out
  take_out-Lacks l = ground (arith, position-Lacks _ q.items l)

  -- `update`, `replace_at_uid` and `remove_by_uid` at the item that they find.
  pub update-At :
      (c : At uid q.items) (r : QueuedItem V)
      → let r' = record r { item_uid = uid } in
        update fresh q uid r ≡ (with_items fresh q (c.before ++ r' ∷ c.after), some r')
  unfolding update bump_queue_uid
  update-At c r = ground (arith, position-Cut c, set-Cut c (record r { item_uid = uid }))

  pub replace_at_uid-At :
      (c : At uid q.items) (r : QueuedItem V)
      → replace_at_uid fresh q uid r ≡ (with_items fresh q (c.before ++ r ∷ c.after), some r)
  unfolding replace_at_uid bump_queue_uid
  replace_at_uid-At c r = ground (arith, position-Cut c, set-Cut c r)

  pub remove_by_uid-At :
      (c : At uid q.items)
      → remove_by_uid fresh q uid ≡ (with_items fresh q (c.before ++ c.after), some c.found)
  unfolding remove_by_uid bump_queue_uid
  remove_by_uid-At c = ground (arith, position-Cut c, get_elem?-Cut c, remove_idx-Cut c)

  -- No item has the uid: the queue is as it was.
  pub update-Lacks :
      (r : QueuedItem V) → Lacks (has_uid uid) q.items → update fresh q uid r ≡ (q, none)
  unfolding update
  update-Lacks r l = ground (arith, position-Lacks _ q.items l)

  pub replace_at_uid-Lacks :
      (r : QueuedItem V) → Lacks (has_uid uid) q.items → replace_at_uid fresh q uid r ≡ (q, none)
  unfolding replace_at_uid
  replace_at_uid-Lacks r l = ground (arith, position-Lacks _ q.items l)

  pub remove_by_uid-Lacks : Lacks (has_uid uid) q.items → remove_by_uid fresh q uid ≡ (q, none)
  unfolding remove_by_uid
  remove_by_uid-Lacks l = ground (arith, position-Lacks _ q.items l)

  -- The insertions beside an item, and the index of `insert_at` put within the queue.
  pub insert_before_uid-At :
      (c : At uid q.items) (r : QueuedItem V)
      → insert_before_uid fresh q uid r
        ≡ (with_items fresh q (c.before ++ r ∷ c.found ∷ c.after), true)
  unfolding insert_before_uid bump_queue_uid
  insert_before_uid-At c r = ground (arith, position-Cut c, insert_idx-Cut c r)

  pub insert_after_uid-At :
      (c : At uid q.items) (r : QueuedItem V)
      → insert_after_uid fresh q uid r
        ≡ (with_items fresh q (c.before ++ c.found ∷ r ∷ c.after), true)
  unfolding insert_after_uid bump_queue_uid
  insert_after_uid-At c r = ground (arith, position-Cut c, insert_idx-Cut_suc c r)

  pub insert_before_uid-Lacks :
      (r : QueuedItem V)
      → Lacks (has_uid uid) q.items
      → insert_before_uid fresh q uid r ≡ (q, false)
  unfolding insert_before_uid
  insert_before_uid-Lacks r l = ground (arith, position-Lacks _ q.items l)

  pub insert_after_uid-Lacks :
      (r : QueuedItem V) → Lacks (has_uid uid) q.items → insert_after_uid fresh q uid r ≡ (q, false)
  unfolding insert_after_uid
  insert_after_uid-Lacks r l = ground (arith, position-Lacks _ q.items l)

  -- The moves: the item out of its place, and into the one that the second search finds.
  pub move_to-Lacks :
      (dest : ℕ) → Lacks (has_uid uid) q.items → move_to fresh q uid dest ≡ (q, none)
  unfolding move_to
  move_to-Lacks dest l = ground (arith, take_out-Lacks l)

  pub move_to-At :
      (c : At uid q.items) (dest : ℕ)
      → let rest = c.before ++ c.after in
        let items = insert_idx rest (min dest (length rest)) c.found in
        move_to fresh q uid dest ≡ (with_items fresh q items, some c.found)
  unfolding move_to bump_queue_uid
  move_to-At c dest = ground (arith, take_out-At c)

module _ {V : Type 0} (fresh : String) (q : PlanQueue V) (uid ref_uid : String) where
  pub move_before_uid-Lacks :
      Lacks (has_uid uid) q.items → move_before_uid fresh q uid ref_uid ≡ (q, none)
  unfolding move_before_uid
  move_before_uid-Lacks l = ground (arith, take_out-Lacks fresh q uid l)

  pub move_after_uid-Lacks :
      Lacks (has_uid uid) q.items → move_after_uid fresh q uid ref_uid ≡ (q, none)
  unfolding move_after_uid
  move_after_uid-Lacks l = ground (arith, take_out-Lacks fresh q uid l)

  module _ (c : At uid q.items) where
    pub move_before_uid-At :
        (d : At ref_uid (c.before ++ c.after))
        → move_before_uid fresh q uid ref_uid
          ≡ (with_items fresh q (d.before ++ c.found ∷ d.found ∷ d.after), some c.found)
    unfolding move_before_uid bump_queue_uid
    move_before_uid-At d =
        ground (arith, take_out-At fresh q uid c, position-Cut d, insert_idx-Cut d c.found)

    pub move_after_uid-At :
        (d : At ref_uid (c.before ++ c.after))
        → move_after_uid fresh q uid ref_uid
          ≡ (with_items fresh q (d.before ++ d.found ∷ c.found ∷ d.after), some c.found)
    unfolding move_after_uid bump_queue_uid
    move_after_uid-At d =
        ground (arith, take_out-At fresh q uid c, position-Cut d, insert_idx-Cut_suc d c.found)

    -- The reference is not among the other items: the item is gone.
    pub move_before_uid-lost :
        Lacks (has_uid ref_uid) (c.before ++ c.after)
        → move_before_uid fresh q uid ref_uid ≡ (record q { items = c.before ++ c.after }, none)
    unfolding move_before_uid
    move_before_uid-lost l =
        ground (arith, take_out-At fresh q uid c, position-Lacks _ (c.before ++ c.after) l)

    pub move_after_uid-lost :
        Lacks (has_uid ref_uid) (c.before ++ c.after)
        → move_after_uid fresh q uid ref_uid ≡ (record q { items = c.before ++ c.after }, none)
    unfolding move_after_uid
    move_after_uid-lost l =
        ground (arith, take_out-At fresh q uid c, position-Lacks _ (c.before ++ c.after) l)
