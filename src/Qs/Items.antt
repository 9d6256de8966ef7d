-- ===== src/Qs/Items.antt =====
-- The queue item requests of crates/bsrs/src/qs/dispatch.rs, with `QueuedItem::plan` and
-- `instruction` of crates/bsrs/src/qs/queue.rs.
-- `known` is `registry.plan(name).is_some()`. The UUIDs that a request draws are arguments: for its
-- items, and for the queue. A constructor of `ItemError` is the message of an `err` response, and
-- `ok` carries the fields of a success beside `success` and `msg`.
pub mod Placing
pub mod Adding
use bsrs.Prelude.{
  ℕ, zero, suc, ◌+◌, ◌-◌, Bool, true, false, not, ◌&&◌, ◌||◌, String, Option, none, some, List, [],
  ◌∷◌, ◌++◌, ◌==◌, ltb, leb, if◌then◌else◌, str_eq, map, length, any, get_elem?, get_last?,
}
use bsrs.Prelude.Int.{ℤ, pos, negsuc}
use bsrs.Qs.Json.{Json, str_param, flag_param, array_param}
use bsrs.Qs.Queue
use bsrs.Qs.Queue.{QueuedItem, PlanQueue}

pub data ItemError : Type 0 where
  missing_item name_required ambiguous_pos ambiguous_uids pos_not_integer : ItemError
  invalid_pos_value missing_items item_uid_required pos_not_found specify_uid_or_pos : ItemError
  uid_required missing_uids : ItemError
  unknown_plan unsupported_instruction unsupported_item_type : String → ItemError
  before_uid_not_found after_uid_not_found invalid_pos_string : String → ItemError
  uid_not_found reference_not_found : String → ItemError

pub data Reply (A : Type 0) : Type 0 where
  ok : A → Reply A
  err : ItemError → Reply A

abbrev pub is_some : {A : Type 0} → Option A → Bool
is_some none = false
is_some (some _) = true

abbrev pub or_default : {A : Type 0} → A → Option A → A
or_default d none = d
or_default d (some a) = a

-- The result of a positioned insertion.
pub data Placed : Type 0 where
  placed : Placed
  refused : ItemError → Placed

module _ (J : Json) where
  abbrev pub Item : Type 0
  Item = QueuedItem J.Value

  -- `QueuedItem::plan`, with the UUID that it draws.
  unfoldable pub plan_item : String → String → J.Value → Item
  plan_item uid name item = record {
    item_uid = uid;
    item_type = "plan";
    name = name;
    args = or_default J.empty_array (J.get item "args");
    kwargs = or_default J.empty_object (J.get item "kwargs");
    meta = J.null;
    user = none;
    user_group = none;
    result = none;
  }

  -- `QueuedItem::instruction`.
  unfoldable pub instruction_item : String → String → Item
  instruction_item uid name = record {
    item_uid = uid;
    item_type = "instruction";
    name = name;
    args = J.null;
    kwargs = J.null;
    meta = J.null;
    user = none;
    user_group = none;
    result = none;
  }

  -- The index arithmetic of an integer `pos`; `negsuc n` is -(n + 1).
  unfoldable pub insert_index : String → PlanQueue J.Value → Item → ℤ → PlanQueue J.Value
  insert_index fresh q it (pos i) =
      if i == 0
      then Queue.insert_at fresh q 0 it
      else if leb (Queue.len q) i
      then Queue.push_back fresh q it
      else Queue.insert_at fresh q i it
  insert_index fresh q it (negsuc n) =
      if ltb (Queue.len q) (n + 1)
      then Queue.insert_at fresh q 0 it
      else if n == 0
      then Queue.push_back fresh q it
      else Queue.insert_at fresh q (Queue.len q - n) it

  unfoldable pub insert_pos :
      String → PlanQueue J.Value → Item → Option J.Value → PlanQueue J.Value × Placed
  unfolding insert_index
  insert_pos fresh q it none = (Queue.push_back fresh q it, placed)
  insert_pos fresh q it (some v) = elim (J.as_str v) [
    | some s ↦
        if str_eq s "back"
        then (Queue.push_back fresh q it, placed)
        else if str_eq s "front"
        then (Queue.insert_at fresh q 0 it, placed)
        else (q, refused (invalid_pos_string s))
    | none ↦
        if J.is_number v
        then elim (J.as_i64 v) [
          | none ↦ (q, refused pos_not_integer)
          | some i ↦ (insert_index fresh q it i, placed)
        ]
        else (q, refused invalid_pos_value)
  ]

  unfoldable pub insert_positioned :
      String
      → PlanQueue J.Value
      → Item
      → Option J.Value
      → Option String
      → Option String
      → PlanQueue J.Value × Placed
  unfolding insert_pos
  insert_positioned fresh q it pos_val (some buid) after_uid =
      let (q', found) = Queue.insert_before_uid fresh q buid it in
      (q', if found then placed else refused (before_uid_not_found buid))
  insert_positioned fresh q it pos_val none (some auid) =
      let (q', found) = Queue.insert_after_uid fresh q auid it in
      (q', if found then placed else refused (after_uid_not_found auid))
  insert_positioned fresh q it pos_val none none = insert_pos fresh q it pos_val

  -- The two checks of the position's parameters.
  unfoldable pub ambiguous : Option J.Value → Option String → Option String → Option ItemError
  ambiguous pos_val before_uid after_uid =
      if is_some pos_val && (is_some before_uid || is_some after_uid)
      then some ambiguous_pos
      else if is_some before_uid && is_some after_uid
      then some ambiguous_uids
      else none

  -- The item of `queue_item_add`, by its type.
  unfoldable pub build_item : (String → Bool) → String → String → String → J.Value → Reply Item
  unfolding plan_item instruction_item
  build_item known uid item_type name item =
      if str_eq item_type "plan"
      then if known name then ok (plan_item uid name item) else err (unknown_plan name)
      else if str_eq item_type "instruction"
      then if str_eq name "queue_stop"
        then ok (instruction_item uid name)
        else err (unsupported_instruction name)
      else err (unsupported_item_type item_type)

  -- `qsize`, the item and the queue uid of a response.
  pub record Added : Type 0 where
    pub qsize : ℕ
    pub item : Item
    pub plan_queue_uid : String

  abbrev pub with_user : J.Value → Item → Item
  with_user params it = record it {
    user = str_param J params "user";
    user_group = str_param J params "user_group";
  }

  unfoldable pub place_item :
      String → PlanQueue J.Value → Item → J.Value → PlanQueue J.Value × Reply Added
  place_item fresh q it params =
      let (q', p) =
        insert_positioned fresh q it (J.get params "pos") (str_param J params "before_uid")
          (str_param J params "after_uid") in
      elim p [
        | refused e ↦ (q', err e)
        | placed ↦
            (q', ok (record { qsize = Queue.len q'; item = it; plan_queue_uid = q'.queue_uid }))
      ]

  unfoldable pub queue_item_add :
      (String → Bool)
      → String
      → String
      → PlanQueue J.Value
      → J.Value
      → PlanQueue J.Value × Reply Added
  unfolding place_item
  queue_item_add known uid fresh q params = elim (J.get params "item") [
    | none ↦ (q, err missing_item)
    | some item ↦ elim (str_param J item "name") [
      | none ↦ (q, err name_required)
      | some name ↦
          elim (ambiguous (J.get params "pos") (str_param J params "before_uid")
            (str_param J params "after_uid")) [
              | some e ↦ (q, err e)
              | none ↦
                  elim (build_item known uid (or_default "plan" (str_param J item "item_type")) name
                    item) [
                      | err e ↦ (q, err e)
                      | ok it ↦ place_item fresh q (with_user params it) params
                    ]
            ]
    ]
  ]
