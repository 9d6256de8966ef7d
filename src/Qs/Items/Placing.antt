-- ===== src/Qs/Items/Placing.antt =====
-- Where a queue item request (crates/bsrs/src/qs/dispatch.rs) puts its item, and what it leaves
-- alone when it is refused.
use bsrs.Prelude.{
  ℕ, ◌+◌, ◌-◌, min, ◌≡◌, refl, sym, ap, ◌∙◌, inl, inr, String, Option, none, some, List, [], ◌∷◌,
  ◌++◌, arith, length, ◌==◌, ltb, leb, Option-cases, Bool-cases, insert_idx, str_eq,
}
use mathlib.Core.List.{append-nil, append_assoc}
use bsrs.Prelude.Int.{ℤ, pos, negsuc}
use bsrs.Prelude.Splits.{cut, cut_at, insert_idx-at}
use bsrs.Qs.Json.{Json}
use bsrs.Qs.Queue
use bsrs.Qs.Queue.{QueuedItem, PlanQueue, has_uid}
use bsrs.Qs.Queue.Cuts
use bsrs.Qs.Queue.Cuts.{with_items}
use bsrs.Qs.Items.{
  Item, Placed, placed, refused, pos_not_integer, invalid_pos_value, invalid_pos_string,
  insert_index, insert_pos, insert_positioned,
}

-- `q'` is `q` with the item put in once, the others in their order, and the fresh queue uid.
pub record Inserted {V : Type 0} (fresh : String) (q : PlanQueue V) (it : QueuedItem V)
    (q' : PlanQueue V) : Type 0 where
  pub before : List (QueuedItem V)
  pub after : List (QueuedItem V)
  pub old : q.items ≡ before ++ after
  pub now : q' ≡ with_items fresh q (before ++ it ∷ after)

module _ {V : Type 0} (fresh : String) (q : PlanQueue V) (it : QueuedItem V) where
  -- Inserted, with so many items in front.
  abbrev pub InsertedAt : ℕ → PlanQueue V → Type 0
  InsertedAt n q' = (i : Inserted fresh q it q') × (length i.before ≡ n)

  push_back-at : InsertedAt (length q.items) (Queue.push_back fresh q it)
  unfolding Queue.push_back
  push_back-at =
      (record { before = q.items; after = []; old = sym (append-nil q.items); now = refl }, refl)

  insert_at-at : (idx : ℕ) → InsertedAt (min idx (length q.items)) (Queue.insert_at fresh q idx it)
  unfolding Queue.insert_at
  insert_at-at idx =
      let n = min idx (length q.items) in
      let (b, a, e, k) = cut_at n q.items (omega arith) in
      (
        record {
          before = b;
          after = a;
          old = e;
          now = ap (with_items fresh q) (
              ap (λ l. insert_idx l n it) e
              ∙ (ap (λ m. insert_idx (b ++ a) m it) (sym k) ∙ insert_idx-at b a it));
        },
        k,
      )

  moved_to : {m n : ℕ} {q' : PlanQueue V} → m ≡ n → InsertedAt m q' → InsertedAt n q'
  moved_to e (i, k) = (i, k ∙ e)

-- The index of an inserted item: a negative position counts from the end, where -1 is behind the
-- last item, and a position past an end is moved to it.
abbrev insertion_point : ℕ → ℤ → ℕ
insertion_point size (pos i) = min i size
insertion_point size (negsuc n) = size - n

module _ (J : Json) (fresh : String) (q : PlanQueue J.Value) (it : Item J) where
  insert_index-point :
      (i : ℤ)
      → InsertedAt fresh q it (insertion_point (length q.items) i) (insert_index J fresh q it i)
  unfolding insert_index Queue.len
  insert_index-point (pos i) = elim (Bool-cases (i == 0)) [
    | inl e ↦ rw e (moved_to fresh q it (ground arith) (insert_at-at fresh q it 0))
    | inr e ↦ elim (Bool-cases (leb (length q.items) i)) [
      | inl f ↦ rw (e, f) (moved_to fresh q it (ground arith) (push_back-at fresh q it))
      | inr f ↦ rw (e, f) (insert_at-at fresh q it i)
    ]
  ]
  insert_index-point (negsuc n) = elim (Bool-cases (ltb (length q.items) (n + 1))) [
    | inl e ↦ rw e (moved_to fresh q it (ground arith) (insert_at-at fresh q it 0))
    | inr e ↦ elim (Bool-cases (n == 0)) [
      | inl f ↦ rw (e, f) (moved_to fresh q it (ground arith) (push_back-at fresh q it))
      | inr f ↦
          rw (e, f)
            (moved_to fresh q it (ground arith) (insert_at-at fresh q it (length q.items - n)))
    ]
  ]

  -- Refused with the queue as it was, or placed with the item inserted once.
  abbrev pub Placing : PlanQueue J.Value × Placed → Type 0
  Placing (q', refused e) = q' ≡ q
  Placing (q', placed) = Inserted fresh q it q'

  Placing-of_eq :
      {r : PlanQueue J.Value × Placed} (r' : PlanQueue J.Value × Placed)
      → r ≡ r'
      → Placing r'
      → Placing r
  Placing-of_eq r' e h = rw e h

  insert_pos-Placing : (v : Option J.Value) → Placing (insert_pos J fresh q it v)
  unfolding insert_pos
  insert_pos-Placing none = (push_back-at fresh q it).0
  insert_pos-Placing (some v) = elim (Option-cases (J.as_str v)) [
    | inr x ↦
        let (s, e) = x in
        elim (Bool-cases (str_eq s "back")) [
          | inl b ↦
              Placing-of_eq (Queue.push_back fresh q it, placed) (ground (arith, e, b))
                (push_back-at fresh q it).0
          | inr b ↦ elim (Bool-cases (str_eq s "front")) [
            | inl f ↦
                Placing-of_eq (Queue.insert_at fresh q 0 it, placed) (ground (arith, e, b, f))
                  (insert_at-at fresh q it 0).0
            | inr f ↦
                Placing-of_eq (q, refused (invalid_pos_string s)) (ground (arith, e, b, f)) refl
          ]
        ]
    | inl e ↦ elim (Bool-cases (J.is_number v)) [
      | inr n ↦ Placing-of_eq (q, refused invalid_pos_value) (ground (arith, e, n)) refl
      | inl n ↦ elim (Option-cases (J.as_i64 v)) [
        | inl i ↦ Placing-of_eq (q, refused pos_not_integer) (ground (arith, e, n, i)) refl
        | inr y ↦
            let (i, k) = y in
            Placing-of_eq (insert_index J fresh q it i, placed) (ground (arith, e, n, k))
              ((insert_index-point i).0)
      ]
    ]
  ]

  -- The positioned insertion, on every branch: it is refused and the queue is exactly as it was, or
  -- the item is inserted once among the others, which keep their order.
  pub insert_positioned-Placing :
      (pos_val : Option J.Value) (before_uid after_uid : Option String)
      → Placing (insert_positioned J fresh q it pos_val before_uid after_uid)
  unfolding insert_positioned
  insert_positioned-Placing pos_val (some buid) after_uid = elim (cut (has_uid buid) q.items) [
    | inr l ↦ rw (Cuts.insert_before_uid-Lacks fresh q buid it l) refl
    | inl c ↦
        rw (Cuts.insert_before_uid-At fresh q buid c it)
          (record { before = c.before; after = c.found ∷ c.after; old = c.whole; now = refl })
  ]
  insert_positioned-Placing pos_val none (some auid) = elim (cut (has_uid auid) q.items) [
    | inr l ↦ rw (Cuts.insert_after_uid-Lacks fresh q auid it l) refl
    | inl c ↦ rw (Cuts.insert_after_uid-At fresh q auid c it) (record {
      before = c.before ++ c.found ∷ [];
      after = c.after;
      old = c.whole ∙ sym (append_assoc c.before (c.found ∷ []) c.after);
      now = ap (with_items fresh q) (sym (append_assoc c.before (c.found ∷ []) (it ∷ c.after)));
    })
  ]
  insert_positioned-Placing pos_val none none = insert_pos-Placing pos_val
