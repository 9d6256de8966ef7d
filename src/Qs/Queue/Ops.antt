-- ===== src/Qs/Queue/Ops.antt =====
-- Every mutation of the plan queue (crates/bsrs/src/qs/queue.rs) as a value, and what all of them
-- keep.
use bsrs.Prelude.{ℕ, ◌≡◌, ◌≢◌, ◌⊎◌, String, none, some, arith, position}
use bsrs.Prelude.Splits.{Lacks}
use bsrs.Qs.Queue
use bsrs.Qs.Queue.{QueuedItem, PlanQueue, has_uid, take_out}

pub data Op (V : Type 0) : Type 0 where
  push_back : QueuedItem V → Op V
  push_front : QueuedItem V → Op V
  pop_front : Op V
  update : String → QueuedItem V → Op V
  replace_at_uid : String → QueuedItem V → Op V
  remove_by_uid : String → Op V
  move_to : String → ℕ → Op V
  move_before_uid : String → String → Op V
  move_after_uid : String → String → Op V
  insert_at : ℕ → QueuedItem V → Op V
  insert_before_uid : String → QueuedItem V → Op V
  insert_after_uid : String → QueuedItem V → Op V
  clear : Op V
  push_history : QueuedItem V → Op V
  clear_history : Op V

module _ {V : Type 0} where
  unfoldable pub apply : String → PlanQueue V → Op V → PlanQueue V
  apply fresh q (push_back it) = Queue.push_back fresh q it
  apply fresh q (push_front it) = Queue.push_front fresh q it
  apply fresh q pop_front = (Queue.pop_front fresh q).0
  apply fresh q (update uid it) = (Queue.update fresh q uid it).0
  apply fresh q (replace_at_uid uid it) = (Queue.replace_at_uid fresh q uid it).0
  apply fresh q (remove_by_uid uid) = (Queue.remove_by_uid fresh q uid).0
  apply fresh q (move_to uid dest) = (Queue.move_to fresh q uid dest).0
  apply fresh q (move_before_uid uid ref) = (Queue.move_before_uid fresh q uid ref).0
  apply fresh q (move_after_uid uid ref) = (Queue.move_after_uid fresh q uid ref).0
  apply fresh q (insert_at idx it) = Queue.insert_at fresh q idx it
  apply fresh q (insert_before_uid ref it) = (Queue.insert_before_uid fresh q ref it).0
  apply fresh q (insert_after_uid ref it) = (Queue.insert_after_uid fresh q ref it).0
  apply fresh q clear = Queue.clear fresh q
  apply fresh q (push_history it) = Queue.push_history fresh q it
  apply fresh q clear_history = Queue.clear_history fresh q

  -- The reference of a move is among the items other than the moved one.
  abbrev pub RefFound : PlanQueue V → String → String → Type 0
  RefFound q uid ref = elim (take_out q uid) [
    | none ↦ Unit
    | some (it, rest) ↦ position (has_uid ref) rest ≢ none
  ]

  abbrev pub MoveIsSound : PlanQueue V → Op V → Type 0
  MoveIsSound q (move_before_uid uid ref) = RefFound q uid ref
  MoveIsSound q (move_after_uid uid ref) = RefFound q uid ref
  MoveIsSound q _ = Unit

  -- The item that an operation brings has a uid of its own.
  abbrev pub BringsFresh : PlanQueue V → Op V → Type 0
  BringsFresh q (push_back it) = Lacks (has_uid it.item_uid) q.items
  BringsFresh q (push_front it) = Lacks (has_uid it.item_uid) q.items
  BringsFresh q (replace_at_uid uid it) = Lacks (has_uid it.item_uid) q.items
  BringsFresh q (insert_at idx it) = Lacks (has_uid it.item_uid) q.items
  BringsFresh q (insert_before_uid ref it) = Lacks (has_uid it.item_uid) q.items
  BringsFresh q (insert_after_uid ref it) = Lacks (has_uid it.item_uid) q.items
  BringsFresh q _ = Unit

  -- The queue uid is honest, but for the moves beside a reference that is missing, or is the item
  -- itself, which are excluded here: any other operation either leaves the
  -- pending items as they were or takes the fresh queue uid; and likewise for the history.
  pub apply-uid_honest :
      (fresh : String) (q : PlanQueue V) (op : Op V)
      → MoveIsSound q op
      → (((apply fresh q op).items ≡ q.items) ⊎ ((apply fresh q op).queue_uid ≡ fresh))
        × (((apply fresh q op).history ≡ q.history) ⊎ ((apply fresh q op).history_uid ≡ fresh))
  unfolding apply Queue.push_back Queue.push_front Queue.pop_front Queue.update Queue.replace_at_uid
      Queue.remove_by_uid Queue.move_to Queue.move_before_uid Queue.move_after_uid Queue.insert_at
      Queue.insert_before_uid Queue.insert_after_uid Queue.clear Queue.push_history
      Queue.clear_history
  apply-uid_honest fresh q clear_history h = ground arith
  apply-uid_honest fresh q op h = ground arith
