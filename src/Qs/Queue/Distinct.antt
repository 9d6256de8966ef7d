-- ===== src/Qs/Queue/Distinct.antt =====
-- Distinct item uids, and what putting in or taking out an item does to them.
use bsrs.Prelude.{◌≡◌, false, List, [], ◌∷◌, ◌++◌, arith, str_eq_iff}
use bsrs.Prelude.Alls.{All-put, All-take}
use bsrs.Prelude.Splits.{Lacks}
use bsrs.Qs.Queue.{QueuedItem, has_uid}

module _ {V : Type 0} where
  -- No two items have one uid.
  abbrev pub Distinct : List (QueuedItem V) → Type 0
  Distinct [] = Unit
  Distinct (x ∷ xs) = Lacks (has_uid x.item_uid) xs × Distinct xs

  has_uid-flip : (x y : QueuedItem V) → has_uid x.item_uid y ≡ false → has_uid y.item_uid x ≡ false
  has_uid-flip x y h =
      ground (arith, str_eq_iff x.item_uid y.item_uid, str_eq_iff y.item_uid x.item_uid)

  pub Distinct-take :
      (b : List (QueuedItem V)) (x : QueuedItem V) (a : List (QueuedItem V))
      → Distinct (b ++ x ∷ a)
      → Lacks (has_uid x.item_uid) (b ++ a) × Distinct (b ++ a)
  Distinct-take [] x a h = h
  Distinct-take (y ∷ b) x a h =
      let (ne, rest) = All-take _ b x a h.0 in
      let (l, d) = Distinct-take b x a h.1 in ((has_uid-flip y x ne, l), (rest, d))

  pub Distinct-put :
      (b : List (QueuedItem V)) (x : QueuedItem V) (a : List (QueuedItem V))
      → Lacks (has_uid x.item_uid) (b ++ a)
      → Distinct (b ++ a)
      → Distinct (b ++ x ∷ a)
  Distinct-put [] x a l d = (l, d)
  Distinct-put (y ∷ b) x a l d =
      (All-put _ b x a (has_uid-flip x y l.0) d.0, Distinct-put b x a l.1 d.1)

  -- Another place for one item.
  pub Distinct-move :
      (b : List (QueuedItem V)) (x : QueuedItem V) (a c d : List (QueuedItem V))
      → c ++ d ≡ b ++ a
      → Distinct (b ++ x ∷ a)
      → Distinct (c ++ x ∷ d)
  Distinct-move b x a c d e h =
      let (l, k) = Distinct-take b x a h in Distinct-put c x d (rw e l) (rw e k)
