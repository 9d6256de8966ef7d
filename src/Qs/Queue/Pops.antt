-- ===== src/Qs/Queue/Pops.antt =====
-- What `pop_front` returns, of crates/bsrs/src/qs/queue.rs.
use bsrs.Prelude.{String, ◌≡◌, refl, ◌⊎◌, inl, inr, Option, none, some, List, [], ◌∷◌}
use bsrs.Qs.Queue.{QueuedItem, PlanQueue, popped, bump_queue_uid, pop_front}

module _ {V : Type 0} where
  -- The queue is empty and stays, or its first item goes.
  abbrev pub Popped : String → PlanQueue V → PlanQueue V × Option (QueuedItem V) → Type 0
  Popped fresh q p =
      ((q.items ≡ []) × (p ≡ (q, none)))
      ⊎ ((it : QueuedItem V) × (rest : List (QueuedItem V)) × (q.items ≡ it ∷ rest)
          × (p ≡ (record q { queue_uid = fresh; items = rest }, some it)))

  Popped-popped :
      (fresh : String) (q : PlanQueue V) (xs : List (QueuedItem V))
      → q.items ≡ xs
      → Popped fresh q (popped fresh q xs)
  unfolding popped bump_queue_uid
  Popped-popped fresh q [] e = inl (e, refl)
  Popped-popped fresh q (it ∷ rest) e = inr (it, rest, e, refl)

  pub Popped-pop_front : (fresh : String) (q : PlanQueue V) → Popped fresh q (pop_front fresh q)
  unfolding pop_front
  Popped-pop_front fresh q = Popped-popped fresh q q.items refl
