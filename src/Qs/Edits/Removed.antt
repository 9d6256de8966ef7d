-- ===== src/Qs/Edits/Removed.antt =====
-- What `queue_item_remove_batch` (crates/bsrs/src/qs/dispatch.rs) leaves in the queue.
use bsrs.Prelude.{
  ℕ, suc, ◌≡◌, refl, sym, ap, ◌∙◌, inl, inr, Bool, true, not, ◌&&◌, String, List, [], ◌∷◌, ◌++◌,
  arith, any, filter, length, Option, none, some, Bool-cases, str_eq_iff,
}
use mathlib.Core.Path.{subst}
use mathlib.Core.List.{Perm, perm_middle}
use mathlib.Core.List.Perm
use bsrs.Prelude.Alls.{perm_of_eq}
use bsrs.Prelude.Splits.{Cut, Lacks, cut}
use bsrs.Qs.Json.{Json, array_param}
use bsrs.Qs.Queue
use bsrs.Qs.Queue.{QueuedItem, PlanQueue, has_uid}
use bsrs.Qs.Queue.Cuts
use bsrs.Qs.Queue.Distinct.{Distinct, Distinct-take}
use bsrs.Qs.Queue.Ops.{Op, apply}
use bsrs.Qs.Queue.Uids.{apply-Distinct}
use bsrs.Qs.Items.{ok}
use bsrs.Qs.Edits.{with_found, remove_all, uids_of, queue_item_remove_batch}

module _ {A : Type 0} where
  filter-Lacks : (p : A → Bool) (xs : List A) → Lacks p xs → filter (λ x. not (p x)) xs ≡ xs
  filter-Lacks p [] l = refl
  filter-Lacks p (x ∷ xs) l = ground (arith, l.0, filter-Lacks p xs l.1)

  filter-put :
      (p : A → Bool) (b : List A) (x : A) (a : List A)
      → Lacks p (b ++ a)
      → p x ≡ true
      → filter (λ y. not (p y)) (b ++ x ∷ a) ≡ b ++ a
  filter-put p [] x a l h = ground (arith, h, filter-Lacks p a l)
  filter-put p (y ∷ b) x a l h = ground (arith, l.0, filter-put p b x a l.1 h)

  filter-filter :
      (f g h : A → Bool) (xs : List A)
      → ((x : A) → h x ≡ (g x && f x))
      → filter f (filter g xs) ≡ filter h xs
  filter-filter f g h [] e = refl
  filter-filter f g h (x ∷ xs) e = elim (Bool-cases (g x)) [
    | inl t ↦ ground (arith, e x, t, filter-filter f g h xs e)
    | inr t ↦ ground (arith, e x, t, filter-filter f g h xs e)
  ]

  filter-true : (f : A → Bool) (xs : List A) → ((x : A) → f x ≡ true) → filter f xs ≡ xs
  filter-true f [] e = refl
  filter-true f (x ∷ xs) e = ground (arith, e x, filter-true f xs e)

module _ {V : Type 0} where
  -- The item has none of the uids.
  abbrev pub kept : List String → QueuedItem V → Bool
  kept us it = not (any (λ u. has_uid u it) us)

  remove_by_uid-Distinct :
      (fresh : String) (q : PlanQueue V) (u : String)
      → Distinct q.items
      → Distinct (Queue.remove_by_uid fresh q u).0.items
  unfolding apply
  remove_by_uid-Distinct fresh q u d = apply-Distinct fresh q (Op.remove_by_uid u) d tt

  remove_by_uid-filter :
      (fresh : String) (q : PlanQueue V) (u : String)
      → Distinct q.items
      → (Queue.remove_by_uid fresh q u).0.items ≡ filter (λ it. not (has_uid u it)) q.items
  remove_by_uid-filter fresh q u d = elim (cut (has_uid u) q.items) [
    | inr l ↦
        ap (λ r. r.0.items) (Cuts.remove_by_uid-Lacks fresh q u l)
        ∙ sym (filter-Lacks (has_uid u) q.items l)
    | inl c ↦
        let (l, _) = Distinct-take c.before c.found c.after (rw c.whole at d) in
        ap (λ r. r.0.items) (Cuts.remove_by_uid-At fresh q u c)
        ∙ (sym (filter-put (has_uid u) c.before c.found c.after (lacks c l) c.passes)
            ∙ ap (filter (λ it. not (has_uid u it))) (sym c.whole))
  ]
    where
      lacks :
          (c : Cut (has_uid u) q.items)
          → Lacks (has_uid c.found.item_uid) (c.before ++ c.after)
          → Lacks (has_uid u) (c.before ++ c.after)
      lacks c l =
          let e : (c.found.item_uid ≡ u) =
            ground (arith, c.passes, str_eq_iff c.found.item_uid u) in
          subst (λ v. Lacks (has_uid v) (c.before ++ c.after)) e l

  remove_all-filter :
      (fresh : ℕ → String) (k : ℕ) (q : PlanQueue V) (us : List String)
      → Distinct q.items
      → (remove_all fresh k q us).0.items ≡ filter (kept us) q.items
  unfolding remove_all
  remove_all-filter fresh k q [] d = sym (filter-true (kept []) q.items (λ x. refl))
  remove_all-filter fresh k q (u ∷ us) d =
      let q' = (Queue.remove_by_uid (fresh k) q u).0 in
      remove_all-filter fresh (suc k) q' us (remove_by_uid-Distinct (fresh k) q u d)
      ∙ (ap (filter (kept us)) (remove_by_uid-filter (fresh k) q u d)
          ∙ filter-filter (kept us) (λ it. not (has_uid u it)) (kept (u ∷ us)) q.items
              (λ it. ground (arith, Bool-cases (has_uid u it))))

module _ {V : Type 0} where
  remove_by_uid-perm :
      (fresh : String) (q : PlanQueue V) (u : String)
      → let (q', r) = Queue.remove_by_uid fresh q u in Perm (with_found r q'.items) q.items
  remove_by_uid-perm fresh q u = elim (cut (has_uid u) q.items) [
    | inr l ↦ rw (Cuts.remove_by_uid-Lacks fresh q u l) (Perm.refl q.items)
    | inl c ↦
        rw (Cuts.remove_by_uid-At fresh q u c)
          (Perm.trans (Perm.symm (perm_middle c.before c.after)) (perm_of_eq (sym c.whole)))
  ]

  found_more :
      (r : Option (QueuedItem V)) (its new mid old : List (QueuedItem V))
      → Perm (its ++ new) mid
      → Perm (with_found r mid) old
      → Perm (with_found r its ++ new) old
  found_more none its new mid old m n = Perm.trans m n
  found_more (some it) its new mid old m n = Perm.trans (Perm.cons it m) n

  remove_all-perm :
      (fresh : ℕ → String) (k : ℕ) (q : PlanQueue V) (us : List String)
      → let (q', its) = remove_all fresh k q us in Perm (its ++ q'.items) q.items
  unfolding remove_all
  remove_all-perm fresh k q [] = Perm.refl q.items
  remove_all-perm fresh k q (u ∷ us) =
      let (q', r) = Queue.remove_by_uid (fresh k) q u in
      let (q'', its) = remove_all fresh (suc k) q' us in
      found_more r its q''.items q'.items q.items (remove_all-perm fresh (suc k) q' us)
        (remove_by_uid-perm (fresh k) q u)

-- A batch removal succeeds for any uids, and with distinct uids in the queue exactly the items of
-- the batch go: the loop leaves the others, in their order, and the items that the response lists
-- are those that went. The size and the queue uid of the response are those of the queue when it is
-- read again, after what others did to it in between.
pub remove_batch-leaves :
    (J : Json) (between : PlanQueue J.Value → PlanQueue J.Value) (fresh : ℕ → String)
    (q : PlanQueue J.Value) (params : J.Value) (vs : List J.Value)
    → Distinct q.items
    → array_param J params "uids" ≡ some vs
    → (left : PlanQueue J.Value) × (removed : List (QueuedItem J.Value)) × (left.items
        ≡ filter (kept (uids_of J vs)) q.items)
      × Perm (removed ++ left.items) q.items
      × (queue_item_remove_batch J between fresh q params ≡ (
        between left,
        ok (record {
          items_removed = removed;
          qsize = length (between left).items;
          plan_queue_uid = (between left).queue_uid;
        }),
      ))
unfolding queue_item_remove_batch Queue.len
remove_batch-leaves J between fresh q params vs d e =
    let (left, removed) = remove_all fresh 0 q (uids_of J vs) in
    (
      left,
      removed,
      remove_all-filter fresh 0 q (uids_of J vs) d,
      remove_all-perm fresh 0 q (uids_of J vs),
      ground (arith, e),
    )
