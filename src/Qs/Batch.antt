-- ===== src/Qs/Batch.antt =====
-- `queue_item_add_batch` of crates/bsrs/src/qs/dispatch.rs.
-- `item_uid k` is the UUID drawn for the k-th accepted item, `fresh k` the one that the k-th
-- insertion draws for the queue. `known` is `registry.plan(name).is_some()`.
pub mod Block
pub mod Atomic
use bsrs.Prelude.{
  ℕ, suc, Bool, true, false, String, Option, none, some, List, [], ◌∷◌, if◌then◌else◌, length,
}
use bsrs.Qs.Json.{Json, str_param, array_param}
use bsrs.Qs.Queue
use bsrs.Qs.Queue.{PlanQueue}
use bsrs.Qs.Items.{
  Item, ItemError, missing_items, name_required, unknown_plan, Placed, placed, refused, plan_item,
  insert_positioned, with_user, ambiguous,
}

-- The outcome for one submitted item, in `results`.
pub data ItemResult : Type 0 where
  accepted : ItemResult
  rejected : ItemError → ItemResult

module _ (J : Json) where
  pub record Prepared : Type 0 where
    pub prepared : List (Item J)
    pub results : List ItemResult
    pub had_error : Bool

  -- Phase 1: every item is built or rejected, before the queue is touched.
  unfoldable pub prepare : (String → Bool) → (ℕ → String) → J.Value → ℕ → List J.Value → Prepared
  unfolding plan_item
  prepare known item_uid params k [] = record { prepared = []; results = []; had_error = false }
  prepare known item_uid params k (item ∷ items) = elim (str_param J item "name") [
    | none ↦
        let rest = prepare known item_uid params k items in
        record rest { results = rejected name_required ∷ rest.results; had_error = true }
    | some n ↦ elim (known n) [
      | false ↦
          let rest = prepare known item_uid params k items in
          record rest { results = rejected (unknown_plan n) ∷ rest.results; had_error = true }
      | true ↦
          let rest = prepare known item_uid params (suc k) items in
          let qi = with_user J params (plan_item J (item_uid k) n item) in
          record rest { prepared = qi ∷ rest.prepared; results = accepted ∷ rest.results }
    ]
  ]

  -- The position of one item: the batch's for the first, behind the previous one for the others.
  unfoldable pub place_next :
      String → PlanQueue J.Value → J.Value → Option String → Item J → PlanQueue J.Value × Placed
  place_next fresh q params none qi =
      insert_positioned J fresh q qi (J.get params "pos") (str_param J params "before_uid")
        (str_param J params "after_uid")
  place_next fresh q params (some prev) qi = insert_positioned J fresh q qi none none (some prev)

  -- Phase 2: the loop returns at the first item that is refused.
  unfoldable pub insert_block :
      (ℕ → String)
      → J.Value
      → ℕ
      → PlanQueue J.Value
      → Option String
      → List (Item J)
      → PlanQueue J.Value × Placed
  insert_block fresh params k q prev [] = (q, placed)
  insert_block fresh params k q prev (qi ∷ rest) =
      let (q', p) = place_next (fresh k) q params prev qi in
      elim p [
        | refused e ↦ (q', refused e)
        | placed ↦ insert_block fresh params (suc k) q' (some qi.item_uid) rest
      ]

  pub data BatchReply : Type 0 where
    -- `qsize`, the items as submitted, `results` and `plan_queue_uid` of a batch that is refused
    batch_rejected : ℕ → List J.Value → List ItemResult → String → BatchReply
    -- `qsize`, the items added, `results` and `plan_queue_uid`
    batch_added : ℕ → List (Item J) → List ItemResult → String → BatchReply
    batch_err : ItemError → BatchReply

  unfoldable pub commit :
      (ℕ → String)
      → PlanQueue J.Value
      → J.Value
      → List J.Value
      → Prepared
      → PlanQueue J.Value × BatchReply
  commit fresh q params items p =
      if p.had_error
      then (q, batch_rejected (Queue.len q) items p.results q.queue_uid)
      else let (q', done) = insert_block fresh params 0 q none p.prepared in
        elim done [
          | refused e ↦ (q', batch_err e)
          | placed ↦ (q', batch_added (Queue.len q') p.prepared p.results q'.queue_uid)
        ]

  unfoldable pub queue_item_add_batch :
      (String → Bool)
      → (ℕ → String)
      → (ℕ → String)
      → PlanQueue J.Value
      → J.Value
      → PlanQueue J.Value × BatchReply
  unfolding commit
  queue_item_add_batch known item_uid fresh q params = elim (array_param J params "items") [
    | none ↦ (q, batch_err missing_items)
    | some items ↦
        elim (ambiguous J (J.get params "pos") (str_param J params "before_uid")
          (str_param J params "after_uid")) [
            | some e ↦ (q, batch_err e)
            | none ↦ commit fresh q params items (prepare known item_uid params 0 items)
          ]
  ]
