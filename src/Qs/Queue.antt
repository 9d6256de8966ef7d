-- ===== src/Qs/Queue.antt =====
-- crates/bsrs/src/qs/queue.rs: queued items, the plan queue and its history.
-- A fresh UUID is the argument `fresh` of the operation that draws it. `&mut self` is the queue
-- that an operation returns. `V` is the type of JSON values.
pub mod Cuts
pub mod Order
pub mod Distinct
pub mod Ops
pub mod Uids
pub mod Pops
use bsrs.Prelude.{
  ℕ, suc, min, String, Bool, true, false, Option, none, some, List, [], ◌∷◌, ◌++◌, length,
  get_elem?, set, insert_idx, remove_idx, position, find, str_eq,
}
use mathlib.Core.Option

pub record QueuedItem (V : Type 0) : Type 0 where
  pub item_uid : String
  pub item_type : String
  pub name : String
  pub args : V
  pub kwargs : V
  pub meta : V
  pub user : Option String
  pub user_group : Option String
  pub result : Option V

pub record PlanQueue (V : Type 0) : Type 0 where
  pub items : List (QueuedItem V)
  pub history : List (QueuedItem V)
  pub queue_uid : String
  pub history_uid : String

-- `|i| i.item_uid == uid`
abbrev pub has_uid : {V : Type 0} → String → QueuedItem V → Bool
has_uid uid i = str_eq i.item_uid uid

module _ {V : Type 0} where
  unfoldable pub with_result : QueuedItem V → V → QueuedItem V
  with_result i r = record i { result = some r }

  unfoldable pub bump_queue_uid : String → PlanQueue V → PlanQueue V
  bump_queue_uid fresh q = record q { queue_uid = fresh }

  unfoldable pub bump_history_uid : String → PlanQueue V → PlanQueue V
  bump_history_uid fresh q = record q { history_uid = fresh }

  unfoldable pub push_back : String → PlanQueue V → QueuedItem V → PlanQueue V
  unfolding bump_queue_uid
  push_back fresh q item = bump_queue_uid fresh (record q { items = q.items ++ item ∷ [] })

  -- `VecDeque::pop_front`, and the bump if there was an item.
  popped : String → PlanQueue V → List (QueuedItem V) → PlanQueue V × Option (QueuedItem V)
  unfolding bump_queue_uid
  popped fresh q [] = (q, none)
  popped fresh q (it ∷ rest) = (bump_queue_uid fresh (record q { items = rest }), some it)

  unfoldable pub pop_front : String → PlanQueue V → PlanQueue V × Option (QueuedItem V)
  unfolding popped
  pop_front fresh q = popped fresh q q.items

  unfoldable pub len : PlanQueue V → ℕ
  len q = length q.items

  is_nil : List (QueuedItem V) → Bool
  is_nil [] = true
  is_nil (_ ∷ _) = false

  unfoldable pub is_empty : PlanQueue V → Bool
  unfolding is_nil
  is_empty q = is_nil q.items

  unfoldable pub snapshot : PlanQueue V → List (QueuedItem V)
  snapshot q = q.items

  unfoldable pub get_by_uid : PlanQueue V → String → Option (QueuedItem V)
  get_by_uid q uid = find (has_uid uid) q.items

  unfoldable pub index_of_uid : PlanQueue V → String → Option ℕ
  index_of_uid q uid = position (has_uid uid) q.items

  unfoldable pub update :
      String → PlanQueue V → String → QueuedItem V → PlanQueue V × Option (QueuedItem V)
  unfolding bump_queue_uid
  update fresh q uid replacement = elim (position (has_uid uid) q.items) [
    | none ↦ (q, none)
    | some pos ↦
        let new_item = record replacement { item_uid = uid } in
        (bump_queue_uid fresh (record q { items = set q.items pos new_item }), some new_item)
  ]

  unfoldable pub replace_at_uid :
      String → PlanQueue V → String → QueuedItem V → PlanQueue V × Option (QueuedItem V)
  unfolding bump_queue_uid
  replace_at_uid fresh q uid new_item = elim (position (has_uid uid) q.items) [
    | none ↦ (q, none)
    | some pos ↦
        (bump_queue_uid fresh (record q { items = set q.items pos new_item }), some new_item)
  ]

  unfoldable pub remove_by_uid : String → PlanQueue V → String → PlanQueue V × Option (QueuedItem V)
  unfolding bump_queue_uid
  remove_by_uid fresh q uid = elim (position (has_uid uid) q.items) [
    | none ↦ (q, none)
    | some pos ↦ elim (get_elem? q.items pos) [
      | none ↦ (q, none)
      | some it ↦ (bump_queue_uid fresh (record q { items = remove_idx q.items pos }), some it)
    ]
  ]

  -- The item `uid` taken out, before a move puts it back: no bump.
  unfoldable pub take_out : PlanQueue V → String → Option (QueuedItem V × List (QueuedItem V))
  take_out q uid = elim (position (has_uid uid) q.items) [
    | none ↦ none
    | some pos ↦ Option.map (λ it. (it, remove_idx q.items pos)) (get_elem? q.items pos)
  ]

  unfoldable pub move_to : String → PlanQueue V → String → ℕ → PlanQueue V × Option (QueuedItem V)
  unfolding bump_queue_uid take_out
  move_to fresh q uid dest = elim (take_out q uid) [
    | none ↦ (q, none)
    | some (it, rest) ↦
        let items = insert_idx rest (min dest (length rest)) it in
        (bump_queue_uid fresh (record q { items = items }), some it)
  ]

  -- The item is out of the queue when the second search fails: `?` returns with it dropped.
  unfoldable pub move_before_uid :
      String → PlanQueue V → String → String → PlanQueue V × Option (QueuedItem V)
  unfolding bump_queue_uid take_out
  move_before_uid fresh q uid ref_uid = elim (take_out q uid) [
    | none ↦ (q, none)
    | some (it, rest) ↦ elim (position (has_uid ref_uid) rest) [
      | none ↦ (record q { items = rest }, none)
      | some ref_pos ↦
          (bump_queue_uid fresh (record q { items = insert_idx rest ref_pos it }), some it)
    ]
  ]

  unfoldable pub move_after_uid :
      String → PlanQueue V → String → String → PlanQueue V × Option (QueuedItem V)
  unfolding bump_queue_uid take_out
  move_after_uid fresh q uid ref_uid = elim (take_out q uid) [
    | none ↦ (q, none)
    | some (it, rest) ↦ elim (position (has_uid ref_uid) rest) [
      | none ↦ (record q { items = rest }, none)
      | some ref_pos ↦
          (bump_queue_uid fresh (record q { items = insert_idx rest (suc ref_pos) it }), some it)
    ]
  ]

  unfoldable pub push_front : String → PlanQueue V → QueuedItem V → PlanQueue V
  unfolding bump_queue_uid
  push_front fresh q item = bump_queue_uid fresh (record q { items = item ∷ q.items })

  unfoldable pub insert_at : String → PlanQueue V → ℕ → QueuedItem V → PlanQueue V
  unfolding bump_queue_uid
  insert_at fresh q idx item =
      let items = insert_idx q.items (min idx (length q.items)) item in
      bump_queue_uid fresh (record q { items = items })

  unfoldable pub insert_before_uid :
      String → PlanQueue V → String → QueuedItem V → PlanQueue V × Bool
  unfolding bump_queue_uid
  insert_before_uid fresh q ref_uid item = elim (position (has_uid ref_uid) q.items) [
    | some pos ↦ (bump_queue_uid fresh (record q { items = insert_idx q.items pos item }), true)
    | none ↦ (q, false)
  ]

  unfoldable pub insert_after_uid :
      String → PlanQueue V → String → QueuedItem V → PlanQueue V × Bool
  unfolding bump_queue_uid
  insert_after_uid fresh q ref_uid item = elim (position (has_uid ref_uid) q.items) [
    | some pos ↦
        (bump_queue_uid fresh (record q { items = insert_idx q.items (suc pos) item }), true)
    | none ↦ (q, false)
  ]

  cleared : String → PlanQueue V → List (QueuedItem V) → PlanQueue V
  unfolding bump_queue_uid
  cleared fresh q [] = q
  cleared fresh q (_ ∷ _) = bump_queue_uid fresh (record q { items = [] })

  unfoldable pub clear : String → PlanQueue V → PlanQueue V
  unfolding cleared
  clear fresh q = cleared fresh q q.items

  unfoldable pub history_snapshot : PlanQueue V → List (QueuedItem V)
  history_snapshot q = q.history

  unfoldable pub history_size : PlanQueue V → ℕ
  history_size q = length q.history

  unfoldable pub push_history : String → PlanQueue V → QueuedItem V → PlanQueue V
  unfolding bump_history_uid
  push_history fresh q item = bump_history_uid fresh (record q { history = q.history ++ item ∷ [] })

  cleared_history : String → PlanQueue V → List (QueuedItem V) → PlanQueue V
  unfolding bump_history_uid
  cleared_history fresh q [] = q
  cleared_history fresh q (_ ∷ _) = bump_history_uid fresh (record q { history = [] })

  unfoldable pub clear_history : String → PlanQueue V → PlanQueue V
  unfolding cleared_history
  clear_history fresh q = cleared_history fresh q q.history

-- `new`, with the two UUIDs that it draws.
unfoldable pub new : {V : Type 0} → String → String → PlanQueue V
new fresh_queue fresh_history = record {
  items = [];
  history = [];
  queue_uid = fresh_queue;
  history_uid = fresh_history;
}
