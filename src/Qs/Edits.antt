-- ===== src/Qs/Edits.antt =====
-- `queue_item_update`, `queue_item_get`, `queue_item_remove` and `queue_item_remove_batch` of
-- crates/bsrs/src/qs/dispatch.rs. `uid` is the UUID drawn for a replacement item, `fresh` the ones
-- drawn for the queue, by the position of the removed uid in a batch.
pub mod Removed
use bsrs.Prelude.{
  ℕ, suc, Bool, String, Option, none, some, List, [], ◌∷◌, if◌then◌else◌, str_eq, get_elem?,
  get_last?,
}
use bsrs.Qs.Json.{Json, str_param, flag_param, array_param}
use bsrs.Qs.Queue
use bsrs.Qs.Queue.{QueuedItem, PlanQueue}
use bsrs.Qs.Items.{
  Item, Reply, ok, err, Added, or_default, plan_item, missing_item, item_uid_required,
  uid_not_found, pos_not_found, specify_uid_or_pos, uid_required, missing_uids,
}

-- The fields of a successful `queue_item_remove_batch`.
pub record Removal (V : Type 0) : Type 0 where
  pub items_removed : List (QueuedItem V)
  pub qsize : ℕ
  pub plan_queue_uid : String

module _ {V : Type 0} where
  abbrev pub with_found : Option (QueuedItem V) → List (QueuedItem V) → List (QueuedItem V)
  with_found none its = its
  with_found (some it) its = it ∷ its

  -- The loop over the uids; one that is not queued is passed over.
  unfoldable pub remove_all :
      (ℕ → String) → ℕ → PlanQueue V → List String → PlanQueue V × List (QueuedItem V)
  remove_all fresh k q [] = (q, [])
  remove_all fresh k q (u ∷ us) =
      let (q', r) = Queue.remove_by_uid (fresh k) q u in
      let (q'', its) = remove_all fresh (suc k) q' us in (q'', with_found r its)

module _ (J : Json) where
  -- The item and the queue uid of the response.
  unfoldable pub queue_item_update :
      String → String → PlanQueue J.Value → J.Value → PlanQueue J.Value × Reply (Item J × String)
  unfolding plan_item
  queue_item_update uid fresh q params = elim (J.get params "item") [
    | none ↦ (q, err missing_item)
    | some item ↦ elim (str_param J item "item_uid") [
      | none ↦ (q, err item_uid_required)
      | some old ↦
          let new_item = plan_item J uid (or_default "" (str_param J item "name")) item in
          let (q', r) =
            if flag_param J params "replace"
            then Queue.replace_at_uid fresh q old new_item
            else Queue.update fresh q old new_item in
          elim r [
            | none ↦ (q', err (uid_not_found old))
            | some updated ↦ (q', ok (updated, q'.queue_uid))
          ]
    ]
  ]

  -- The item at a `pos`.
  unfoldable pub item_at : PlanQueue J.Value → J.Value → Option (Item J)
  item_at q pos = elim (J.as_str pos) [
    | some s ↦
        if str_eq s "front"
        then get_elem? (Queue.snapshot q) 0
        else if str_eq s "back"
        then get_last? (Queue.snapshot q)
        else none
    | none ↦
        if J.is_number pos
        then elim (J.as_u64 pos) [ none ↦ none | some i ↦ get_elem? (Queue.snapshot q) i ]
        else none
  ]

  unfoldable pub queue_item_get : PlanQueue J.Value → J.Value → Reply (Item J)
  unfolding item_at
  queue_item_get q params = elim (str_param J params "uid") [
    | some uid ↦ elim (Queue.get_by_uid q uid) [ none ↦ err (uid_not_found uid) | some it ↦ ok it ]
    | none ↦ elim (J.get params "pos") [
      | none ↦ err specify_uid_or_pos
      | some pos ↦ elim (item_at q pos) [ none ↦ err pos_not_found | some it ↦ ok it ]
    ]
  ]

  unfoldable pub queue_item_remove :
      String → PlanQueue J.Value → J.Value → PlanQueue J.Value × Reply (Added J)
  queue_item_remove fresh q params = elim (str_param J params "uid") [
    | none ↦ (q, err uid_required)
    | some uid ↦
        let (q', r) = Queue.remove_by_uid fresh q uid in
        elim r [
          | none ↦ (q', err (uid_not_found uid))
          | some it ↦
              (q', ok (record { qsize = Queue.len q'; item = it; plan_queue_uid = q'.queue_uid }))
        ]
  ]

  -- `iter().filter_map(|v| v.as_str())`
  unfoldable pub uids_of : List J.Value → List String
  uids_of [] = []
  uids_of (v ∷ vs) = let rest = uids_of vs in elim (J.as_str v) [ none ↦ rest | some s ↦ s ∷ rest ]

  -- The queue's lock is released after the loop and taken again for the response: `between` is what
  -- other requests do to the queue in the meantime.
  unfoldable pub queue_item_remove_batch :
      (PlanQueue J.Value → PlanQueue J.Value)
      → (ℕ → String)
      → PlanQueue J.Value
      → J.Value
      → PlanQueue J.Value × Reply (Removal J.Value)
  unfolding remove_all uids_of
  queue_item_remove_batch between fresh q params = elim (array_param J params "uids") [
    | none ↦ (q, err missing_uids)
    | some vs ↦
        let (q', removed) = remove_all fresh 0 q (uids_of vs) in
        let now = between q' in
        (
          now,
          ok (record {
            items_removed = removed;
            qsize = Queue.len now;
            plan_queue_uid = now.queue_uid;
          }),
        )
  ]
