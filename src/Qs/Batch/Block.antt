-- ===== src/Qs/Batch/Block.antt =====
-- The insertion loop of `queue_item_add_batch` (crates/bsrs/src/qs/dispatch.rs): one block of items.
use bsrs.Prelude.{
  ℕ, suc, ◌≡◌, refl, sym, ap, ◌∙◌, String, Option, none, some, List, [], ◌∷◌, ◌++◌, arith,
  str_eq_refl, All,
}
use mathlib.Core.List.{append_assoc}
use bsrs.Prelude.Alls.{All-append, All-split}
use bsrs.Prelude.Splits.{Cut, Lacks}
use bsrs.Qs.Json.{Json, str_param}
use bsrs.Qs.Queue.{QueuedItem, PlanQueue, has_uid}
use bsrs.Qs.Queue.Cuts
use bsrs.Qs.Queue.Cuts.{with_items}
use bsrs.Qs.Items.{Item, ItemError, Placed, placed, refused, insert_positioned}
use bsrs.Qs.Items.Placing.{Placing, insert_positioned-Placing}
use bsrs.Qs.Batch.{place_next, insert_block}

-- Each item's uid is on no item seen, nor on an item before it in the block.
abbrev pub FreshBlock : {V : Type 0} → List (QueuedItem V) → List (QueuedItem V) → Type 0
FreshBlock seen [] = Unit
FreshBlock seen (x ∷ xs) = Lacks (has_uid x.item_uid) seen × FreshBlock (x ∷ seen) xs

module _ (J : Json) (fresh : ℕ → String) (params : J.Value) where
  -- Behind an item whose uid no earlier item has.
  place_behind :
      (f : String) (q : PlanQueue J.Value) (b a : List (Item J)) (x it : Item J)
      → q.items ≡ b ++ x ∷ a
      → Lacks (has_uid x.item_uid) b
      → place_next J f q params (some x.item_uid) it ≡ (with_items f q (b ++ x ∷ it ∷ a), placed)
  unfolding place_next insert_positioned
  place_behind f q b a x it e l =
      let c : Cut (has_uid x.item_uid) q.items = record {
        before = b;
        found = x;
        after = a;
        whole = e;
        passes = str_eq_refl x.item_uid;
        earliest = l;
      } in
      ground (arith, Cuts.insert_after_uid-At f q x.item_uid c it)

  -- One round of the loop.
  pub insert_block-placed :
      (k : ℕ) (q q' : PlanQueue J.Value) (prev : Option String) (qi : Item J) (rest : List (Item J))
      → place_next J (fresh k) q params prev qi ≡ (q', placed)
      → insert_block J fresh params k q prev (qi ∷ rest)
        ≡ insert_block J fresh params (suc k) q' (some qi.item_uid) rest
  unfolding insert_block
  insert_block-placed k q q' prev qi rest e = ground (arith, e)

  pub insert_block-refused :
      (k : ℕ) (q q' : PlanQueue J.Value) (prev : Option String) (qi : Item J) (rest : List (Item J))
      (e : ItemError)
      → place_next J (fresh k) q params prev qi ≡ (q', refused e)
      → insert_block J fresh params k q prev (qi ∷ rest) ≡ (q', refused e)
  unfolding insert_block
  insert_block-refused k q q' prev qi rest e h = ground (arith, h)

  pub insert_block-nil :
      (k : ℕ) (q : PlanQueue J.Value) (prev : Option String)
      → insert_block J fresh params k q prev [] ≡ (q, placed)
  unfolding insert_block
  insert_block-nil k q prev = refl

  -- The rest of a block goes in behind its first item, in order.
  block_behind :
      (k : ℕ) (q : PlanQueue J.Value) (seen b a : List (Item J)) (x : Item J) (xs : List (Item J))
      → q.items ≡ b ++ x ∷ a
      → Lacks (has_uid x.item_uid) b
      → FreshBlock (x ∷ seen) xs
      → ((P : Item J → Type 0) → All P seen → All P b)
      → let (q', p) = insert_block J fresh params k q (some x.item_uid) xs in
        (p ≡ placed) × (q'.items ≡ b ++ x ∷ (xs ++ a)) × (q'.history ≡ q.history)
  block_behind k q seen b a x [] e l h c =
      rw (insert_block-nil k q (some x.item_uid)) (refl, e, refl)
  block_behind k q seen b a x (y ∷ ys) e l h c =
      let q' = with_items (fresh k) q (b ++ x ∷ y ∷ a) in
      let step = place_behind (fresh k) q b a x y e l in
      let (p, items, hist) =
        block_behind (suc k) q' (x ∷ seen) (b ++ x ∷ []) a y ys
          (sym (append_assoc b (x ∷ []) (y ∷ a))) (All-append _ b (x ∷ []) (c _ h.0.1) (h.0.0, tt))
          h.1 (λ P s. All-append P b (x ∷ []) (c P s.1) (s.0, tt)) in
      rw (insert_block-placed k q q' (some x.item_uid) y ys step)
        (p, items ∙ append_assoc b (x ∷ []) (y ∷ (ys ++ a)), hist)

  pub place_first-Placing :
      (f : String) (q : PlanQueue J.Value) (x : Item J)
      → Placing J f q x (place_next J f q params none x)
  unfolding place_next
  place_first-Placing f q x =
      insert_positioned-Placing J f q x (J.get params "pos") (str_param J params "before_uid")
        (str_param J params "after_uid")

  -- A block from its first item on: placed as one run of items, at the place of the first.
  pub insert_block-run :
      (q : PlanQueue J.Value) (x : Item J) (xs : List (Item J))
      → FreshBlock q.items (x ∷ xs)
      → (insert_block J fresh params 0 q none (x ∷ xs)).1 ≡ placed
      → (before after : List (Item J)) × (q.items ≡ before ++ after)
        × ((insert_block J fresh params 0 q none (x ∷ xs)).0.items ≡ before ++ x ∷ (xs ++ after))
  insert_block-run q x xs h done =
      first (place_next J (fresh 0) q params none x) refl (place_first-Placing (fresh 0) q x)
    where
      first :
          (r : PlanQueue J.Value × Placed)
          → place_next J (fresh 0) q params none x ≡ r
          → Placing J (fresh 0) q x r
          → (before after : List (Item J)) × (q.items ≡ before ++ after)
            × ((insert_block J fresh params 0 q none (x ∷ xs)).0.items
                ≡ before ++ x ∷ (xs ++ after))
      first (q', refused e) eq p =
          absurd (ground (arith, insert_block-refused 0 q q' none x xs e eq, done))
      first (q', placed) eq p =
          let (sets, items, hist) =
            block_behind 1 q' q.items p.before p.after x xs (ap (λ t. t.items) p.now)
              (All-split _ p.before p.after (rw p.old at h.0)).0 h.1
              (λ P s. (All-split P p.before p.after (rw p.old at s)).0) in
          (
            p.before,
            p.after,
            p.old,
            ap (λ t. t.0.items) (insert_block-placed 0 q q' none x xs eq) ∙ items,
          )
