-- ===== src/Tests/Queues.antt =====
-- The theorems on the queue, the claim slot and the tracker, each at an input.
use bsrs.Prelude.{◌≡◌, refl, true, false, none, some, List, [], ◌∷◌, ◌++◌, arith, length, drop, ◌-◌}
use bsrs.Prelude.Maps.{lookup, keys}
use bsrs.Tests.Values.{Value, plan_of, queue_of, abc}
use bsrs.Qs.Queue.{QueuedItem, has_uid, move_to, move_before_uid, move_after_uid}
use bsrs.Qs.Queue.Cuts.{At, with_items}
use bsrs.Qs.Queue.Distinct.{Distinct}
use bsrs.Qs.Queue.Order.{
  move_to-places, move_before_uid-adjacent, move-loses_item, pop_all-push_all, pop_all, push_all,
}
use bsrs.Qs.Queue.Ops.{Op, apply}
use bsrs.Qs.Queue.Uids.{apply-Distinct}
use bsrs.Qs.TaskSlot
use bsrs.Qs.TaskSlot.{Slot, claim, is_active, finish}
use bsrs.Qs.TaskSlot.Protocol.{World, Step, Reach, here, next, Inv, mem}
use bsrs.Qs.TaskSlot.Invariant.{Reach-Inv, claim-exclusive}
use bsrs.Qs.Tasks
use bsrs.Qs.Tasks.{EvalResult, TaskTracker, max_tasks, complete, status, result, source_method}
use bsrs.Qs.Tasks.Eviction
use bsrs.Qs.Tasks.Eviction.{start-Inv, tracker-Inv}
use bsrs.Qs.Tasks.Newest.{starts-remembers_newest, starts}

-- Item "b" of the queue, and items beside it.
abbrev at_b : At "b" abc.items
at_b = record {
  before = plan_of "a" ∷ [];
  found = plan_of "b";
  after = plan_of "c" ∷ [];
  whole = refl;
  passes = refl;
  earliest = (refl, tt);
}

abbrev at_c : At "c" (plan_of "a" ∷ plan_of "c" ∷ [])
at_c = record {
  before = plan_of "a" ∷ [];
  found = plan_of "c";
  after = [];
  whole = refl;
  passes = refl;
  earliest = (refl, tt);
}

move_to-places_example :
    (before after : List (QueuedItem Value)) × (move_to "u1" abc "b" 7
      ≡ (with_items "u1" abc (before ++ plan_of "b" ∷ after), some (plan_of "b")))
    × (before ++ after ≡ plan_of "a" ∷ plan_of "c" ∷ [])
    × (length before ≡ 2)
move_to-places_example = move_to-places "u1" abc "b" 7 at_b

move_before_uid-adjacent_example :
    (before after : List (QueuedItem Value)) × (ref : QueuedItem Value) × (has_uid "c" ref ≡ true)
    × (before ++ ref ∷ after ≡ plan_of "a" ∷ plan_of "c" ∷ [])
    × (move_before_uid "u1" abc "b" "c"
        ≡ (with_items "u1" abc (before ++ plan_of "b" ∷ ref ∷ after), some (plan_of "b")))
move_before_uid-adjacent_example = move_before_uid-adjacent "u1" abc "b" "c" at_b at_c

move-loses_item_example :
    (move_before_uid "u1" abc "b" "zz" ≡ (queue_of (plan_of "a" ∷ plan_of "c" ∷ []), none))
    × (move_after_uid "u1" abc "b" "zz" ≡ (queue_of (plan_of "a" ∷ plan_of "c" ∷ []), none))
move-loses_item_example = move-loses_item "u1" abc "b" "zz" at_b (refl, (refl, tt))

pop_all-push_all_example :
    pop_all
      ("u3" ∷ "u4" ∷ [])
      (push_all (queue_of (plan_of "a" ∷ [])) (("u1", plan_of "b") ∷ ("u2", plan_of "c") ∷ []))
    ≡ plan_of "a" ∷ plan_of "b" ∷ []
pop_all-push_all_example =
    pop_all-push_all ("u3" ∷ "u4" ∷ []) (queue_of (plan_of "a" ∷ []))
      (("u1", plan_of "b") ∷ ("u2", plan_of "c") ∷ [])

apply-Distinct_example : Distinct (apply "u1" abc (Op.insert_after_uid "b" (plan_of "d"))).items
apply-Distinct_example =
    apply-Distinct "u1" abc (Op.insert_after_uid "b" (plan_of "d"))
      ((refl, (refl, tt)), ((refl, tt), (tt, tt))) (refl, (refl, (refl, tt)))

-- A claim, revoked before its worker ends.
abbrev revoked : World
revoked = record {
  slot = record { entry = none; next_gen = 1; worker_finished = false };
  guards = 0 ∷ [];
  registered = [];
  ended = [];
}

revoked_reached : Reach revoked
unfolding TaskSlot.claim TaskSlot.take TaskSlot.new
revoked_reached = next (next here (Step.claims 0 refl (omega arith))) Step.revokes

Reach-Inv_example : Inv revoked
Reach-Inv_example = Reach-Inv revoked_reached

claims_again : (claim revoked.slot).1 ≡ some 1
unfolding TaskSlot.claim
claims_again = refl

claim-exclusive_example :
    let s = (claim revoked.slot).0 in
    (is_active revoked.slot ≡ false)
    × (claim s ≡ (s, none))
    × (mem 1 revoked.guards ≡ false)
    × (finish s 0 ≡ s)
claim-exclusive_example = claim-exclusive 1 0 revoked_reached refl claims_again (omega arith)

start-Inv_example : Eviction.Inv (Tasks.start Tasks.new "t1" "script_upload")
unfolding Tasks.new lookup
start-Inv_example = start-Inv Tasks.new "t1" "script_upload" tracker-Inv.0 refl

starts-remembers_newest_example :
    keys (starts "script_upload" Tasks.new ("t1" ∷ "t2" ∷ [])).entries
    ≡ drop (2 - max_tasks) ("t1" ∷ "t2" ∷ [])
starts-remembers_newest_example =
    starts-remembers_newest "script_upload" ("t1" ∷ "t2" ∷ []) ((refl, tt), (tt, tt))

abbrev done : EvalResult
done = record { stdout = ""; return_value = some "3"; error = none }

abbrev tracking : TaskTracker
tracking = Tasks.start Tasks.new "t1" "script_upload"
