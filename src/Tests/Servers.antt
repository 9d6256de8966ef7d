-- ===== src/Tests/Servers.antt =====
-- The theorems on the requests of the queue server, each at an input.
use bsrs.Prelude.{
  filter, All, ℕ, zero, suc, ◌+◌, ◌≡◌, ◌≢◌, ◌↔◌, refl, ap, ◌∙◌, inl, inr, ◌⊎◌, true, false, not,
  ◌&&◌, ◌||◌, Bool, String, Option, none, some, List, [], ◌∷◌, ◌++◌, arith, length, if◌then◌else◌,
  str_eq,
}
use bsrs.Prelude.Maps.{lookup}
use bsrs.Tests.Values.{
  Value, Value.text, Value.flag, Value.array, Value.object, Values.stop as no_items,
  Values.item as item, Entries.end, Entries.entry, Value.null, J, single, plan_of, abc, literals,
}
use mathlib.Core.List.{Perm}
use bsrs.Qs.Queue.{PlanQueue, pop_front}
use bsrs.Qs.State.{LockInfo}
use bsrs.Qs.Lock
use bsrs.Qs.Lock.{lock_check, lock_apply, lock_release}
use bsrs.Qs.Lock.Held.{HeldBy, Request, requests, requests-lock_held, lock-unlock}
use bsrs.Qs.Permissions.{
  PermissionsFile, GroupFile, Permissions, Verdict, check_names, load_parsed, reload, resolve_group,
  check, not_configured,
}
use bsrs.Qs.Permissions
use bsrs.Qs.Permissions.Decide.{changing, read_only-refused, Allowed, check_names-decides}
use bsrs.Qs.Permissions.Loading.{Loaded, reload-outcomes}
use bsrs.Qs.Items.{Placed, insert_index, insert_positioned, queue_item_add, Item}
use bsrs.Qs.Items.Placing.{Placing, insert_positioned-Placing}
use bsrs.Qs.Items.Adding.{AddOutcome, queue_item_add-outcome}
use bsrs.Qs.Moves.{queue_item_move_batch}
use bsrs.Qs.Moves.Whole.{AllMoved, move_batch-whole}
use bsrs.Qs.Items
use bsrs.Qs.Edits.{queue_item_remove_batch, uids_of}
use bsrs.Qs.Edits.Removed.{kept, remove_batch-leaves}
use bsrs.Qs.Batch.{ItemResult, batch_added, queue_item_add_batch}
use bsrs.Qs.Batch.Atomic.{submitted, block, batch-atomic, batch-contiguous}

-- The hash of the tests: 0 for the holder's key, 1 for the others.
abbrev hash : String → ℕ
hash k = if str_eq k "sesame" then 0 else 1

abbrev with_key : String → Value
with_key k = single "lock_key" (text k)

abbrev held : LockInfo
held = record {
  environment = true;
  queue = false;
  user = none;
  note = none;
  key_hash = some 0;
  time = none;
  uid = "l1";
}

-- The same lock, on the queue.
abbrev held_queue : LockInfo
held_queue = record held { queue = true }

abbrev queue_locked : LockInfo
queue_locked = record held { environment = false; queue = true }

held-HeldBy : HeldBy hash "sesame" held_queue
held-HeldBy = record { locked = unfold bsrs.Qs.State.is_locked in refl; by_key = refl }

abbrev guess : Request J hash "sesame"
guess = record { fresh = "l2"; now = "noon"; method = "unlock"; params = with_key "guess" }

abbrev start : Request J hash "sesame"
start = record { fresh = "l3"; now = "noon"; method = "queue_start"; params = with_key "guess" }

-- A queue lock stops `queue_start` without the key, and lets `environment_open` pass.
stopped :
    (lock_check J hash "queue_start" queue_locked (with_key "guess") ≡ false)
    × (lock_check J hash "queue_start" queue_locked (with_key "sesame") ≡ true)
    × (lock_check J hash "environment_open" queue_locked null ≡ true)
unfolding lock_check bsrs.Qs.State.is_locked bsrs.Qs.Lock.queue_method bsrs.Qs.Lock.env_method
    bsrs.Qs.Lock.always_allowed
stopped = (refl, refl, refl)

requests-lock_held_example : requests J hash "sesame" held_queue (guess ∷ start ∷ []) ≡ held_queue
requests-lock_held_example =
    requests-lock_held J hash "sesame" held_queue (guess ∷ start ∷ []) held-HeldBy
      (ignorant, (ignorant, tt))
  where
    some_inj : {a b : String} → some a ≡ some b → a ≡ b
    some_inj e = ground (arith, e)

    wrong : hash "guess" ≢ 0
    wrong e = omega (arith, e)

    ignorant : (k : String) → some "guess" ≡ some k → hash k ≢ 0
    ignorant k e h = wrong (ap hash (some_inj e) ∙ h)

abbrev free : LockInfo
free = record {
  environment = false;
  queue = false;
  user = none;
  note = none;
  key_hash = none;
  time = none;
  uid = "l0";
}

abbrev lock_request : Value
lock_request = object (entry "lock_key" (text "sesame") (entry "queue" (flag true) end))

lock_succeeds : (lock_apply J hash "l1" "noon" free lock_request).1 ≡ Lock.ok
unfolding lock_apply bsrs.Qs.State.is_locked bsrs.Qs.State.lock
lock_succeeds = refl

lock-unlock_example :
    let l' = (lock_apply J hash "l1" "noon" free lock_request).0 in
    let (l'', o) = lock_release J hash "l2" l' (with_key "sesame") in
    HeldBy hash "sesame" l'
    × (l'.environment ≡ false)
    × (l'.queue ≡ true)
    × (lock_check J hash "unlock" l' (with_key "sesame") ≡ true)
    × (o ≡ Lock.ok)
    × (lock_check J hash "queue_start" l'' null ≡ true)
lock-unlock_example =
    lock-unlock J hash "sesame" "l1" "l2" "noon" "queue_start" free lock_request (with_key "sesame")
      null refl refl lock_succeeds

-- A file with one group, which may run one plan.
abbrev file : PermissionsFile
file = record {
  default_group = some "staff";
  user_groups =
      (
        "staff",
        record {
          read_only = false;
          admin = false;
          allowed_plans = "count" ∷ [];
          allowed_devices = [];
        },
      )
      ∷ [];
  api_keys = [];
}

abbrev staff : Permissions String
staff = record {
  enforced = true;
  default_group = "staff";
  groups =
      (
        "staff",
        record {
          read_only = false;
          admin = false;
          allowed_plans = "count" ∷ [];
          allowed_devices = [];
        },
      )
      ∷ [];
  api_keys = [];
  path = some "p.json";
}

loads : load_parsed literals "p.json" file ≡ some staff
unfolding load_parsed bsrs.Qs.Permissions.load_groups lookup bsrs.Prelude.Maps.insert
    Permissions.from_file
loads = refl

check_names-decides_example :
    (check_names literals staff "queue_item_add" ("count" ∷ []) "staff" ≡ Permissions.ok)
    ↔ Allowed literals staff "queue_item_add" ("count" ∷ []) "staff"
check_names-decides_example =
    check_names-decides literals staff "queue_item_add" "staff" ("count" ∷ [])

abbrev viewer : Permissions.GroupPolicy String
viewer = record { read_only = true; admin = false; allowed_plans = []; allowed_devices = [] }

abbrev viewers : Permissions String
viewers = record staff { groups = ("viewer", viewer) ∷ [] }

read_only-refused_example :
    All (λ m. check_names literals viewers m ("count" ∷ []) "viewer" ≢ Permissions.ok) changing
unfolding lookup
read_only-refused_example =
    read_only-refused literals viewers "viewer" viewer ("count" ∷ []) refl refl refl refl

abbrev read_file : String → Option PermissionsFile
read_file p = if str_eq p "p.json" then some file else none

reload-outcomes_example :
    let (g', done) = reload literals read_file staff in
    ((done ≡ false) × (g' ≡ staff))
    ⊎ ((done ≡ true)
        × ((path : String) × (f : PermissionsFile) × (staff.path ≡ some path)
            × (read_file path ≡ some f)
            × (load_parsed literals path f ≡ some g')
            × Loaded literals path g'))
reload-outcomes_example = reload-outcomes literals read_file staff

insert_positioned-Placing_example :
    Placing J "u1" abc
      (plan_of "d")
      (insert_positioned J "u1" abc (plan_of "d") none (some "b") none)
insert_positioned-Placing_example =
    insert_positioned-Placing J "u1" abc (plan_of "d") none (some "b") none

abbrev known : String → Bool
known n = str_eq n "count"

abbrev add_request : Value
add_request = object (entry "item" (single "name" (text "count")) (entry "pos" (text "front") end))

queue_item_add-outcome_example :
    AddOutcome J "d" "u1" abc (queue_item_add J known "d" "u1" abc add_request)
queue_item_add-outcome_example = queue_item_add-outcome J "d" "u1" abc known add_request

-- Two plans, behind "a".
abbrev batch : Value
batch = object (
    entry "items"
      (array (item (single "name" (text "count")) (item (single "name" (text "count")) no_items)))
      (entry "after_uid" (text "a") end))

abbrev uids : ℕ → String
uids zero = "d"
uids (suc k) = "e"

batch-atomic_example :
    let (q', reply) = queue_item_add_batch J known uids uids abc batch in
    (q' ≡ abc)
    ⊎ ((rs : List ItemResult) × (reply
          ≡ batch_added (length q'.items) (block J known uids uids abc batch) rs q'.queue_uid)
        × (length (block J known uids uids abc batch)
            ≡ length (submitted J known uids uids abc batch))
        × All (λ r. r ≡ ItemResult.accepted) rs
        × Perm q'.items (block J known uids uids abc batch ++ abc.items))
batch-atomic_example = batch-atomic J known uids uids abc batch

abbrev after_batch : PlanQueue Value
after_batch = record abc {
  items = plan_of "a" ∷ plan_of "d" ∷ plan_of "e" ∷ plan_of "b" ∷ plan_of "c" ∷ [];
  queue_uid = "e";
}

batch_adds : queue_item_add_batch J known uids uids abc batch ≡ (
  after_batch,
  batch_added 5
      (plan_of "d" ∷ plan_of "e" ∷ [])
      (ItemResult.accepted ∷ ItemResult.accepted ∷ [])
      "e",
)
unfolding queue_item_add_batch bsrs.Qs.Batch.commit bsrs.Qs.Batch.prepare bsrs.Qs.Batch.insert_block
    bsrs.Qs.Batch.place_next insert_positioned bsrs.Qs.Queue.insert_after_uid
    bsrs.Qs.Queue.bump_queue_uid bsrs.Qs.Items.ambiguous bsrs.Qs.Items.plan_item bsrs.Qs.Queue.len
batch_adds = refl

batch-contiguous_example :
    (before after : List (Item J)) × (abc.items ≡ before ++ after)
    × (after_batch.items ≡ before ++ (block J known uids uids abc batch ++ after))
unfolding bsrs.Qs.Batch.prepare bsrs.Qs.Items.plan_item
batch-contiguous_example =
    batch-contiguous J known uids uids abc batch after_batch 5 (plan_of "d" ∷ plan_of "e" ∷ [])
      (ItemResult.accepted ∷ ItemResult.accepted ∷ []) "e" batch_adds
      ((refl, (refl, (refl, tt))), ((refl, (refl, (refl, (refl, tt)))), tt))

-- Two items behind the first, in the order of the queue.
abbrev move_request : Value
move_request = object (
    entry "uids" (array (item (text "c") (item (text "b") no_items)))
      (entry "after_uid" (text "a") (entry "reorder" (flag true) end)))

move_batch-whole_example : AllMoved abc (queue_item_move_batch J uids abc move_request)
move_batch-whole_example = move_batch-whole J uids abc move_request

-- Another request drops the head of the queue in between.
abbrev drop_head : PlanQueue Value → PlanQueue Value
drop_head q = (pop_front "u9" q).0

remove_batch-leaves_example :
    (left : PlanQueue Value) × (removed : List (Item J)) × (left.items
      ≡ filter (kept (uids_of J (text "c" ∷ text "b" ∷ []))) abc.items)
    × Perm (removed ++ left.items) abc.items
    × (queue_item_remove_batch J drop_head uids abc move_request ≡ (
      drop_head left,
      Items.ok (record {
        items_removed = removed;
        qsize = length (drop_head left).items;
        plan_queue_uid = (drop_head left).queue_uid;
      }),
    ))
remove_batch-leaves_example =
    remove_batch-leaves J drop_head uids abc move_request (text "c" ∷ text "b" ∷ [])
      ((refl, (refl, tt)), ((refl, tt), (tt, tt))) refl
