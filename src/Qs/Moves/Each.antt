-- ===== src/Qs/Moves/Each.antt =====
-- One move of an item that the queue holds (crates/bsrs/src/qs/queue.rs): it succeeds, and the
-- items are a permutation.
use bsrs.Prelude.{
  ℕ, ◌≡◌, refl, sym, ap, ◌∙◌, inl, inr, Bool, true, false, ◌||◌, String, Option, some, List, [],
  ◌∷◌, ◌++◌, arith, str_eq, str_eq_iff, any,
}
use mathlib.Core.List.{Perm, append_assoc}
use mathlib.Core.List.Perm
use bsrs.Prelude.Alls.{move-perm, perm_of_eq}
use bsrs.Prelude.Splits.{Cut, Lacks, cut}
use bsrs.Qs.Queue
use bsrs.Qs.Queue.{QueuedItem, PlanQueue, has_uid}
use bsrs.Qs.Queue.Cuts
use bsrs.Qs.Queue.Cuts.{with_items}
use bsrs.Qs.Queue.Order.{move_to-places}

module _ {V : Type 0} where
  abbrev pub Held : List (QueuedItem V) → String → Type 0
  Held items u = any (has_uid u) items ≡ true

  pub any-put :
      (p : QueuedItem V → Bool) (b : List (QueuedItem V)) (x : QueuedItem V)
      (a : List (QueuedItem V))
      → any p (b ++ x ∷ a) ≡ (p x || any p (b ++ a))
  any-put p [] x a = ground arith
  any-put p (y ∷ b) x a = ground (arith, any-put p b x a)

  pub any-Lacks :
      (p : QueuedItem V → Bool) (xs : List (QueuedItem V)) → Lacks p xs → any p xs ≡ false
  any-Lacks p [] l = refl
  any-Lacks p (x ∷ xs) l = ground (arith, l.0, any-Lacks p xs l.1)

  pub Held-Cut : (u : String) (xs : List (QueuedItem V)) → Held xs u → Cut (has_uid u) xs
  Held-Cut u xs h = elim (cut (has_uid u) xs) [
    | inl c ↦ c
    | inr l ↦ absurd (ground (arith, h, any-Lacks (has_uid u) xs l))
  ]

  -- A move that succeeds: the items are a permutation.
  pub record Moves (q : PlanQueue V) (r : PlanQueue V × Option (QueuedItem V)) : Type 0 where
    pub to : PlanQueue V
    pub it : QueuedItem V
    pub result : r ≡ (to, some it)
    pub perm : Perm to.items q.items
    pub same : (p : QueuedItem V → Bool) → any p to.items ≡ any p q.items

  Moves-within :
      (fresh : String) (q : PlanQueue V) (u : String) (r : PlanQueue V × Option (QueuedItem V))
      (c : Cut (has_uid u) q.items) (b a : List (QueuedItem V))
      → b ++ a ≡ c.before ++ c.after
      → r ≡ (with_items fresh q (b ++ c.found ∷ a), some c.found)
      → Moves q r
  Moves-within fresh q u r c b a e h = record {
    to = with_items fresh q (b ++ c.found ∷ a);
    it = c.found;
    result = h;
    perm = Perm.trans (move-perm c.before c.found c.after b a (sym e)) (perm_of_eq (sym c.whole));
    same = λ p.
        any-put p b c.found a
        ∙ (ap (λ l. p c.found || any p l) e
            ∙ (sym (any-put p c.before c.found c.after) ∙ ap (any p) (sym c.whole)));
  }

  -- Another uid is held by the other items.
  Held-apart :
      (q : PlanQueue V) (u r : String) (c : Cut (has_uid u) q.items)
      → Held q.items r
      → str_eq r u ≡ false
      → Held (c.before ++ c.after) r
  Held-apart q u r c h n =
      let e : (any (has_uid r) q.items ≡ any (has_uid r) (c.before ++ c.found ∷ c.after)) =
        ap (any (has_uid r)) c.whole in
      ground (
        arith,
        h,
        n,
        e,
        any-put (has_uid r) c.before c.found c.after,
        c.passes,
        str_eq_iff c.found.item_uid u,
        str_eq_iff c.found.item_uid r,
        str_eq_iff r u,
      )

  pub move_after_uid-Moves :
      (fresh : String) (q : PlanQueue V) (u r : String)
      → Held q.items u
      → Held q.items r
      → str_eq r u ≡ false
      → Moves q (Queue.move_after_uid fresh q u r)
  move_after_uid-Moves fresh q u r h k n =
      let c = Held-Cut u q.items h in
      let d = Held-Cut r (c.before ++ c.after) (Held-apart q u r c k n) in
      Moves-within fresh q u (Queue.move_after_uid fresh q u r) c (d.before ++ d.found ∷ []) d.after
        (append_assoc d.before (d.found ∷ []) d.after ∙ sym d.whole)
        (Cuts.move_after_uid-At fresh q u r c d
          ∙ ap (λ l. (with_items fresh q l, some c.found))
              (sym (append_assoc d.before (d.found ∷ []) (c.found ∷ d.after))))

  pub move_before_uid-Moves :
      (fresh : String) (q : PlanQueue V) (u r : String)
      → Held q.items u
      → Held q.items r
      → str_eq r u ≡ false
      → Moves q (Queue.move_before_uid fresh q u r)
  move_before_uid-Moves fresh q u r h k n =
      let c = Held-Cut u q.items h in
      let d = Held-Cut r (c.before ++ c.after) (Held-apart q u r c k n) in
      Moves-within fresh q u (Queue.move_before_uid fresh q u r) c d.before (d.found ∷ d.after)
        (sym d.whole) (Cuts.move_before_uid-At fresh q u r c d)

  pub move_to-Moves :
      (fresh : String) (q : PlanQueue V) (u : String) (dest : ℕ)
      → Held q.items u
      → Moves q (Queue.move_to fresh q u dest)
  move_to-Moves fresh q u dest h =
      let c = Held-Cut u q.items h in
      let (b, a, e, w, n) = move_to-places fresh q u dest c in
      Moves-within fresh q u (Queue.move_to fresh q u dest) c b a w e
