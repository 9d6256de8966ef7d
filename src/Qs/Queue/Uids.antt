-- ===== src/Qs/Queue/Uids.antt =====
-- Every mutation of the plan queue (crates/bsrs/src/qs/queue.rs) keeps the item uids distinct.
use bsrs.Prelude.{
  ℕ, ◌≡◌, refl, sym, ap, ◌∙◌, inl, inr, Bool, true, String, List, [], ◌∷◌, ◌++◌, arith, str_eq_iff,
}
use mathlib.Core.List.{append-nil, append_assoc}
use bsrs.Prelude.Alls.{All-take}
use bsrs.Prelude.Splits.{Lacks, cut}
use bsrs.Qs.Queue
use bsrs.Qs.Queue.{QueuedItem, PlanQueue, has_uid}
use bsrs.Qs.Queue.Cuts.{At, with_items}
use bsrs.Qs.Queue.Cuts
use bsrs.Qs.Queue.Order.{put_within}
use bsrs.Qs.Queue.Ops.{Op, apply, BringsFresh}
use bsrs.Qs.Queue.Distinct.{Distinct, Distinct-take, Distinct-put, Distinct-move}

module _ {V : Type 0} where
  Distinct-of_eq : {xs ys : List (QueuedItem V)} → xs ≡ ys → Distinct ys → Distinct xs
  Distinct-of_eq e d = rw e d

  Lacks-of_eq :
      (p : QueuedItem V → Bool) {xs ys : List (QueuedItem V)} → xs ≡ ys → Lacks p xs → Lacks p ys
  Lacks-of_eq p e l = rw (← e) l

  found_uid : (uid : String) (x : QueuedItem V) → has_uid uid x ≡ true → x.item_uid ≡ uid
  found_uid uid x h = (str_eq_iff x.item_uid uid).0 h

module _ {V : Type 0} (fresh : String) (q : PlanQueue V) (d : Distinct q.items) where
  cut_out :
      (uid : String) (c : At uid q.items)
      → Lacks (has_uid c.found.item_uid) (c.before ++ c.after) × Distinct (c.before ++ c.after)
  cut_out uid c = Distinct-take c.before c.found c.after (Distinct-of_eq (sym c.whole) d)

  put_back :
      (uid : String) (c : At uid q.items) (b a : List (QueuedItem V))
      → b ++ a ≡ c.before ++ c.after
      → Distinct (b ++ c.found ∷ a)
  put_back uid c b a e =
      Distinct-move c.before c.found c.after b a e (Distinct-of_eq (sym c.whole) d)

  put_new :
      (it : QueuedItem V) (b a : List (QueuedItem V))
      → Lacks (has_uid it.item_uid) q.items
      → q.items ≡ b ++ a
      → Distinct (b ++ it ∷ a)
  put_new it b a l e =
      Distinct-put b it a (Lacks-of_eq (has_uid it.item_uid) e l) (Distinct-of_eq (sym e) d)

  popped-Distinct :
      (xs : List (QueuedItem V)) → q.items ≡ xs → Distinct (Queue.pop_front fresh q).0.items
  unfolding Queue.pop_front
  popped-Distinct [] e = ground arith
  popped-Distinct (x ∷ xs) e = rw e ((Distinct-of_eq (sym e) d).1)

  cleared-Distinct :
      (xs : List (QueuedItem V)) → q.items ≡ xs → Distinct (Queue.clear fresh q).items
  unfolding Queue.clear
  cleared-Distinct [] e = rw e tt
  cleared-Distinct (x ∷ xs) e = rw e tt

  update-Distinct :
      (uid : String) (r : QueuedItem V) → Distinct (Queue.update fresh q uid r).0.items
  update-Distinct uid r = elim (cut (has_uid uid) q.items) [
    | inr l ↦ Distinct-of_eq (ap (λ t. t.0.items) (Cuts.update-Lacks fresh q uid r l)) d
    | inl c ↦
        let (l, k) = cut_out uid c in
        let e = found_uid uid c.found c.passes in
        Distinct-of_eq (ap (λ t. t.0.items) (Cuts.update-At fresh q uid c r))
          (Distinct-put c.before (record r { item_uid = uid }) c.after (rw e at l) k)
  ]

  replace-Distinct :
      (uid : String) (r : QueuedItem V)
      → Lacks (has_uid r.item_uid) q.items
      → Distinct (Queue.replace_at_uid fresh q uid r).0.items
  replace-Distinct uid r h = elim (cut (has_uid uid) q.items) [
    | inr l ↦ Distinct-of_eq (ap (λ t. t.0.items) (Cuts.replace_at_uid-Lacks fresh q uid r l)) d
    | inl c ↦
        let h' = Lacks-of_eq (has_uid r.item_uid) c.whole h in
        Distinct-of_eq (ap (λ t. t.0.items) (Cuts.replace_at_uid-At fresh q uid c r)) (
          Distinct-put c.before r c.after (All-take _ c.before c.found c.after h').1
            (cut_out uid c).1)
  ]

  remove-Distinct : (uid : String) → Distinct (Queue.remove_by_uid fresh q uid).0.items
  remove-Distinct uid = elim (cut (has_uid uid) q.items) [
    | inr l ↦ Distinct-of_eq (ap (λ t. t.0.items) (Cuts.remove_by_uid-Lacks fresh q uid l)) d
    | inl c ↦
        Distinct-of_eq (ap (λ t. t.0.items) (Cuts.remove_by_uid-At fresh q uid c)) (cut_out uid c).1
  ]

  move_to-Distinct : (uid : String) (dest : ℕ) → Distinct (Queue.move_to fresh q uid dest).0.items
  move_to-Distinct uid dest = elim (cut (has_uid uid) q.items) [
    | inr l ↦ Distinct-of_eq (ap (λ t. t.0.items) (Cuts.move_to-Lacks fresh q uid dest l)) d
    | inl c ↦
        let (b, a, e, k, n) = put_within fresh q uid dest (c.before ++ c.after) c.found in
        Distinct-of_eq (ap (λ t. t.0.items) (Cuts.move_to-At fresh q uid c dest) ∙ e)
          (put_back uid c b a k)
  ]

  move_before-Distinct :
      (uid ref : String) → Distinct (Queue.move_before_uid fresh q uid ref).0.items
  move_before-Distinct uid ref = elim (cut (has_uid uid) q.items) [
    | inr l ↦ Distinct-of_eq (ap (λ t. t.0.items) (Cuts.move_before_uid-Lacks fresh q uid ref l)) d
    | inl c ↦ elim (cut (has_uid ref) (c.before ++ c.after)) [
      | inr l ↦
          Distinct-of_eq (ap (λ t. t.0.items) (Cuts.move_before_uid-lost fresh q uid ref c l))
            (cut_out uid c).1
      | inl f ↦
          Distinct-of_eq (ap (λ t. t.0.items) (Cuts.move_before_uid-At fresh q uid ref c f))
            (put_back uid c f.before (f.found ∷ f.after) (sym f.whole))
    ]
  ]

  move_after-Distinct : (uid ref : String) → Distinct (Queue.move_after_uid fresh q uid ref).0.items
  move_after-Distinct uid ref = elim (cut (has_uid uid) q.items) [
    | inr l ↦ Distinct-of_eq (ap (λ t. t.0.items) (Cuts.move_after_uid-Lacks fresh q uid ref l)) d
    | inl c ↦ elim (cut (has_uid ref) (c.before ++ c.after)) [
      | inr l ↦
          Distinct-of_eq (ap (λ t. t.0.items) (Cuts.move_after_uid-lost fresh q uid ref c l))
            (cut_out uid c).1
      | inl f ↦
          Distinct-of_eq
            (ap (λ t. t.0.items) (Cuts.move_after_uid-At fresh q uid ref c f)
              ∙ sym (append_assoc f.before (f.found ∷ []) (c.found ∷ f.after)))
            (put_back uid c (f.before ++ f.found ∷ []) f.after
              (append_assoc f.before (f.found ∷ []) f.after ∙ sym f.whole))
    ]
  ]

  insert_at-Distinct :
      (idx : ℕ) (it : QueuedItem V)
      → Lacks (has_uid it.item_uid) q.items
      → Distinct (Queue.insert_at fresh q idx it).items
  unfolding Queue.insert_at
  insert_at-Distinct idx it l =
      let (b, a, e, k, n) = put_within fresh q it.item_uid idx q.items it in
      Distinct-of_eq e (put_new it b a l (sym k))

  insert_before-Distinct :
      (ref : String) (it : QueuedItem V)
      → Lacks (has_uid it.item_uid) q.items
      → Distinct (Queue.insert_before_uid fresh q ref it).0.items
  insert_before-Distinct ref it h = elim (cut (has_uid ref) q.items) [
    | inr l ↦ Distinct-of_eq (ap (λ t. t.0.items) (Cuts.insert_before_uid-Lacks fresh q ref it l)) d
    | inl c ↦
        Distinct-of_eq (ap (λ t. t.0.items) (Cuts.insert_before_uid-At fresh q ref c it))
          (put_new it c.before (c.found ∷ c.after) h c.whole)
  ]

  insert_after-Distinct :
      (ref : String) (it : QueuedItem V)
      → Lacks (has_uid it.item_uid) q.items
      → Distinct (Queue.insert_after_uid fresh q ref it).0.items
  insert_after-Distinct ref it h = elim (cut (has_uid ref) q.items) [
    | inr l ↦ Distinct-of_eq (ap (λ t. t.0.items) (Cuts.insert_after_uid-Lacks fresh q ref it l)) d
    | inl c ↦
        Distinct-of_eq
          (ap (λ t. t.0.items) (Cuts.insert_after_uid-At fresh q ref c it)
            ∙ sym (append_assoc c.before (c.found ∷ []) (it ∷ c.after)))
          (put_new it (c.before ++ c.found ∷ []) c.after h
            (c.whole ∙ sym (append_assoc c.before (c.found ∷ []) c.after)))
  ]

items-clear_history :
    {V : Type 0} (fresh : String) (q : PlanQueue V) → (Queue.clear_history fresh q).items ≡ q.items
unfolding Queue.clear_history
items-clear_history fresh q = ground arith

-- Every mutation of the queue keeps the uids of the pending items distinct, if an item that it
-- brings has a uid that no pending item has; moves that fail are included.
pub apply-Distinct :
    {V : Type 0} (fresh : String) (q : PlanQueue V) (op : Op V)
    → Distinct q.items
    → BringsFresh q op
    → Distinct (apply fresh q op).items
unfolding apply Queue.push_back Queue.push_front Queue.push_history
apply-Distinct fresh q (Op.push_back it) d h =
    put_new fresh q d it q.items [] h (sym (append-nil q.items))
apply-Distinct fresh q (Op.push_front it) d h = (h, d)
apply-Distinct fresh q Op.pop_front d h = popped-Distinct fresh q d q.items refl
apply-Distinct fresh q (Op.update uid it) d h = update-Distinct fresh q d uid it
apply-Distinct fresh q (Op.replace_at_uid uid it) d h = replace-Distinct fresh q d uid it h
apply-Distinct fresh q (Op.remove_by_uid uid) d h = remove-Distinct fresh q d uid
apply-Distinct fresh q (Op.move_to uid dest) d h = move_to-Distinct fresh q d uid dest
apply-Distinct fresh q (Op.move_before_uid uid ref) d h = move_before-Distinct fresh q d uid ref
apply-Distinct fresh q (Op.move_after_uid uid ref) d h = move_after-Distinct fresh q d uid ref
apply-Distinct fresh q (Op.insert_at idx it) d h = insert_at-Distinct fresh q d idx it h
apply-Distinct fresh q (Op.insert_before_uid ref it) d h = insert_before-Distinct fresh q d ref it h
apply-Distinct fresh q (Op.insert_after_uid ref it) d h = insert_after-Distinct fresh q d ref it h
apply-Distinct fresh q Op.clear d h = cleared-Distinct fresh q d q.items refl
apply-Distinct fresh q (Op.push_history it) d h = d
apply-Distinct fresh q Op.clear_history d h = Distinct-of_eq (items-clear_history fresh q) d
