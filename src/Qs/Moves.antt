-- ===== src/Qs/Moves.antt =====
-- `queue_item_move`, `queue_item_move_batch` and `resolve_pos_q` of
-- crates/bsrs/src/qs/dispatch.rs. `fresh k` is the UUID that the k-th move draws for the queue.
pub mod Texts
pub mod Each
pub mod Checked
pub mod Whole
use bsrs.Prelude.{
  ℕ, suc, ◌+◌, ◌==◌, Bool, true, false, String, Option, none, some, List, [], ◌∷◌, if◌then◌else◌,
  leb, str_eq, any, length, not,
}
use bsrs.Qs.Json.{Json, str_param, flag_param, array_param}
use bsrs.Qs.Queue
use bsrs.Qs.Queue.{QueuedItem, PlanQueue}
use bsrs.Qs.Items.{Item, is_some}

-- The message of an `err` response.
pub data MoveError : Type 0 where
  uid_required missing_uids destination_missing destination_ambiguous : MoveError
  uid_not_found reference_not_found duplicate_uid : String → MoveError
  before_uid_in_batch before_uid_not_found after_uid_in_batch after_uid_not_found :
      String → MoveError
  uids_not_in_queue : List String → MoveError
  move_failed : String → MoveError

pub data MoveReply (A : Type 0) : Type 0 where
  moved : A → MoveReply A
  move_err : MoveError → MoveReply A
  -- `unwrap` of a missing index
  panics : MoveReply A

-- Where a batch goes.
pub data Destination : Type 0 where
  to_pos : ℕ → Destination
  before : String → Destination
  after : String → Destination

abbrev one : Bool → ℕ
one true = 1
one false = 0

-- The first text that an earlier one repeats.
unfoldable pub find_duplicate : List String → List String → Option String
find_duplicate seen [] = none
find_duplicate seen (u ∷ us) = if any (str_eq u) seen then some u else find_duplicate (u ∷ seen) us

-- `sort_by_key`, which is stable.
unfoldable pub insert_by_key : ℕ × String → List (ℕ × String) → List (ℕ × String)
insert_by_key x [] = x ∷ []
insert_by_key x (y ∷ ys) = if leb x.0 y.0 then x ∷ (y ∷ ys) else y ∷ insert_by_key x ys

unfoldable pub sort_by_key : List (ℕ × String) → List (ℕ × String)
unfolding insert_by_key
sort_by_key [] = []
sort_by_key (x ∷ xs) = insert_by_key x (sort_by_key xs)

abbrev seconds : List (ℕ × String) → List String
seconds [] = []
seconds (x ∷ xs) = x.1 ∷ seconds xs

module _ {V : Type 0} where
  unfoldable pub missing_from : PlanQueue V → List String → List String
  missing_from q [] = []
  missing_from q (u ∷ us) =
      let rest = missing_from q us in if is_some (Queue.get_by_uid q u) then rest else u ∷ rest

  unfoldable pub with_index : PlanQueue V → List String → Option (List (ℕ × String))
  with_index q [] = some []
  with_index q (u ∷ us) = elim (Queue.index_of_uid q u) [
    | none ↦ none
    | some i ↦ elim (with_index q us) [ none ↦ none | some rest ↦ some ((i, u) ∷ rest) ]
  ]

  unfoldable pub move_first :
      String → PlanQueue V → Destination → String → PlanQueue V × Option (QueuedItem V)
  move_first fresh q (to_pos dest) uid = Queue.move_to fresh q uid dest
  move_first fresh q (before b) uid = Queue.move_before_uid fresh q uid b
  move_first fresh q (after a) uid = Queue.move_after_uid fresh q uid a

  -- The loop behind an item that was moved.
  unfoldable pub move_rest :
      (ℕ → String)
      → ℕ
      → PlanQueue V
      → String
      → List String
      → PlanQueue V × MoveReply (List (QueuedItem V))
  move_rest fresh k q prev [] = (q, moved [])
  move_rest fresh k q prev (u ∷ us) =
      let (q', r) = Queue.move_after_uid (fresh k) q u prev in
      elim r [
        | none ↦ (q', move_err (move_failed u))
        | some it ↦
            let (q'', rest) = move_rest fresh (suc k) q' u us in
            elim rest [
              | moved its ↦ (q'', moved (it ∷ its))
              | move_err e ↦ (q'', move_err e)
              | panics ↦ (q'', panics)
            ]
      ]

  unfoldable pub move_block :
      (ℕ → String)
      → PlanQueue V
      → Destination
      → List String
      → PlanQueue V × MoveReply (List (QueuedItem V))
  unfolding move_first move_rest
  move_block fresh q dest [] = (q, moved [])
  move_block fresh q dest (u ∷ us) =
      let (q', r) = move_first (fresh 0) q dest u in
      elim r [
        | none ↦ (q', move_err (move_failed u))
        | some it ↦
            let (q'', rest) = move_rest fresh 1 q' u us in
            elim rest [
              | moved its ↦ (q'', moved (it ∷ its))
              | move_err e ↦ (q'', move_err e)
              | panics ↦ (q'', panics)
            ]
      ]

  -- The checks of a destination's reference.
  unfoldable pub check_reference : PlanQueue V → Destination → List String → Option MoveError
  check_reference q (to_pos dest) us = none
  check_reference q (before b) us =
      if any (λ u. str_eq u b) us
      then some (before_uid_in_batch b)
      else if is_some (Queue.get_by_uid q b)
      then none
      else some (before_uid_not_found b)
  check_reference q (after a) us =
      if any (λ u. str_eq u a) us
      then some (after_uid_in_batch a)
      else if is_some (Queue.get_by_uid q a)
      then none
      else some (after_uid_not_found a)

  -- The validation, before anything is moved.
  unfoldable pub validate : PlanQueue V → Destination → List String → Option MoveError
  unfolding find_duplicate missing_from check_reference
  validate q dest us = elim (find_duplicate [] us) [
    | some u ↦ some (duplicate_uid u)
    | none ↦ elim (missing_from q us) [
      | m ∷ ms ↦ some (uids_not_in_queue (m ∷ ms))
      | [] ↦ check_reference q dest us
    ]
  ]

  -- The order of the moves.
  unfoldable pub in_order : PlanQueue V → Bool → List String → Option (List String)
  unfolding with_index sort_by_key
  in_order q reorder us =
      if reorder
      then elim (with_index q us) [ none ↦ none | some xs ↦ some (seconds (sort_by_key xs)) ]
      else some us

  unfoldable pub move_all :
      (ℕ → String)
      → PlanQueue V
      → Destination
      → Bool
      → List String
      → PlanQueue V × MoveReply (List (QueuedItem V))
  unfolding validate in_order move_block
  move_all fresh q dest reorder us = elim (validate q dest us) [
    | some e ↦ (q, move_err e)
    | none ↦ elim (in_order q reorder us) [
      | none ↦ (q, panics)
      | some ordered ↦ move_block fresh q dest ordered
    ]
  ]

module _ (J : Json) where
  unfoldable pub resolve_pos_q : Option J.Value → PlanQueue J.Value → ℕ
  resolve_pos_q none q = Queue.len q
  resolve_pos_q (some v) q = elim (J.as_str v) [
    | some s ↦ if str_eq s "front" then 0 else Queue.len q
    | none ↦ if J.is_number v then elim (J.as_u64 v) [ none ↦ 0 | some n ↦ n ] else Queue.len q
  ]

  -- `filter(|v| !v.is_null())`
  abbrev pub non_null : Option J.Value → Option J.Value
  non_null none = none
  non_null (some v) = if J.is_null v then none else some v

  -- `iter().filter_map(|v| v.as_str())`
  unfoldable pub texts : List J.Value → List String
  texts [] = []
  texts (v ∷ vs) = let rest = texts vs in elim (J.as_str v) [ none ↦ rest | some s ↦ s ∷ rest ]

  -- The destination of a batch, of which exactly one may be given.
  unfoldable pub destination :
      PlanQueue J.Value → Option J.Value → Option String → Option String → MoveReply Destination
  unfolding resolve_pos_q
  destination q none none none = move_err destination_missing
  destination q (some v) none none = moved (to_pos (resolve_pos_q (some v) q))
  destination q none (some b) none = moved (before b)
  destination q none none (some a) = moved (after a)
  destination q _ _ _ = move_err destination_ambiguous

  unfoldable pub queue_item_move_batch :
      (ℕ → String) → PlanQueue J.Value → J.Value → PlanQueue J.Value × MoveReply (List (Item J))
  unfolding texts destination move_all
  queue_item_move_batch fresh q params = elim (array_param J params "uids") [
    | none ↦ (q, move_err missing_uids)
    | some vs ↦
        elim (destination q (non_null (J.get params "pos_dest")) (str_param J params "before_uid")
          (str_param J params "after_uid")) [
            | move_err e ↦ (q, move_err e)
            | panics ↦ (q, panics)
            | moved dest ↦ move_all fresh q dest (flag_param J params "reorder") (texts vs)
          ]
  ]

  -- For a `pos_dest` the queue's lock is released, taken to resolve the position, and taken again to
  -- move: `between` is what other requests do to the queue before each of these two.
  unfoldable pub queue_item_move :
      (ℕ → PlanQueue J.Value → PlanQueue J.Value)
      → String
      → PlanQueue J.Value
      → J.Value
      → PlanQueue J.Value × MoveReply (Item J)
  unfolding resolve_pos_q
  queue_item_move between fresh q params = elim (str_param J params "uid") [
    | none ↦ (q, move_err uid_required)
    | some uid ↦ elim (str_param J params "before_uid") [
      | some b ↦
          let (q', r) = Queue.move_before_uid fresh q uid b in
          elim r [ none ↦ (q', move_err (reference_not_found uid)) | some it ↦ (q', moved it) ]
      | none ↦ elim (str_param J params "after_uid") [
        | some a ↦
            let (q', r) = Queue.move_after_uid fresh q uid a in
            elim r [ none ↦ (q', move_err (reference_not_found uid)) | some it ↦ (q', moved it) ]
        | none ↦
            let seen = between 0 q in
            let dest = resolve_pos_q (J.get params "pos_dest") seen in
            let (q', r) = Queue.move_to fresh (between 1 seen) uid dest in
            elim r [ none ↦ (q', move_err (uid_not_found uid)) | some it ↦ (q', moved it) ]
      ]
    ]
  ]
