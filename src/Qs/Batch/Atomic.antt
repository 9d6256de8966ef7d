-- ===== src/Qs/Batch/Atomic.antt =====
-- `queue_item_add_batch` (crates/bsrs/src/qs/dispatch.rs): all of the batch, or nothing of it.
use bsrs.Prelude.{
  All, ℕ, suc, ◌≡◌, refl, sym, ap, ◌∙◌, ◌⊎◌, inl, inr, Bool, true, false, String, none, some, List,
  [], ◌∷◌, ◌++◌, arith, str_eq_refl, length, Option-cases, Bool-cases,
}
use mathlib.Core.Path.{subst}
use mathlib.Core.List.{Perm, perm_middle}
use mathlib.Core.List.Perm
use bsrs.Prelude.Alls.{All-split, perm_of_eq}
use bsrs.Prelude.Splits.{Cut, Lacks, cut}
use bsrs.Qs.Json.{Json, str_param, array_param}
use bsrs.Qs.Queue
use bsrs.Qs.Queue.{PlanQueue, has_uid}
use bsrs.Qs.Queue.Cuts
use bsrs.Qs.Queue.Cuts.{with_items}
use bsrs.Qs.Items.{
  Item, missing_items, or_default, Placed, placed, refused, ambiguous, insert_positioned,
}
use bsrs.Qs.Items.Placing.{Placing}
use bsrs.Qs.Batch.{
  ItemResult, accepted, BatchReply, batch_err, batch_rejected, batch_added, Prepared, prepare,
  place_next, insert_block, commit, queue_item_add_batch,
}
use bsrs.Qs.Batch.Block.{
  FreshBlock, insert_block-run, insert_block-placed, insert_block-refused, insert_block-nil,
  place_first-Placing,
}

module _ (J : Json) (fresh : ℕ → String) (params : J.Value) where
  -- An item in the list is not missing from it.
  held-not-Lacks : (b a : List (Item J)) (x : Item J) → ¬ Lacks (has_uid x.item_uid) (b ++ x ∷ a)
  held-not-Lacks b a x l =
      let (_, p) = All-split (λ y. has_uid x.item_uid y ≡ false) b (x ∷ a) l in
      cc (p.0, str_eq_refl x.item_uid)

  held_behind-not-Lacks :
      (b a : List (Item J)) (w x : Item J) → ¬ Lacks (has_uid x.item_uid) (b ++ w ∷ x ∷ a)
  held_behind-not-Lacks b a w x l =
      let (_, p) = All-split (λ y. has_uid x.item_uid y ≡ false) b (w ∷ x ∷ a) l in
      cc (p.1.0, str_eq_refl x.item_uid)

  place_after :
      (f : String) (q : PlanQueue J.Value) (prev : String) (it : Item J)
      → (c : Cut (has_uid prev) q.items)
      → place_next J f q params (some prev) it
        ≡ (with_items f q (c.before ++ c.found ∷ it ∷ c.after), placed)
  unfolding place_next insert_positioned
  place_after f q prev it c = ground (arith, Cuts.insert_after_uid-At f q prev c it)

  put_behind :
      (b : List (Item J)) (w x : Item J) (a : List (Item J))
      → Perm (b ++ w ∷ x ∷ a) (x ∷ (b ++ w ∷ a))
  put_behind [] w x a = Perm.swap x w a
  put_behind (y ∷ b) w x a =
      Perm.trans (Perm.cons y (put_behind b w x a)) (Perm.swap x y (b ++ w ∷ a))

  -- One more item of the block is in the queue.
  one_more :
      (y : Item J) (ys : List (Item J)) {new mid old : List (Item J)}
      → Perm new (ys ++ mid)
      → Perm mid (y ∷ old)
      → Perm new (y ∷ (ys ++ old))
  one_more y ys {old = old} m n =
      Perm.trans m (Perm.trans (Perm.append_left ys n) (perm_middle ys old))

  -- Behind a queued item the loop never fails, and adds the rest of the block.
  block_placed :
      (k : ℕ) (q : PlanQueue J.Value) (prev : String) (xs : List (Item J))
      → ¬ Lacks (has_uid prev) q.items
      → let (q', p) = insert_block J fresh params k q (some prev) xs in
        (p ≡ placed) × Perm q'.items (xs ++ q.items)
  block_placed k q prev [] h =
      rw (insert_block-nil J fresh params k q (some prev)) (refl, Perm.refl q.items)
  block_placed k q prev (y ∷ ys) h = elim (cut (has_uid prev) q.items) [
    | inr l ↦ absurd (h l)
    | inl c ↦
        let q' = with_items (fresh k) q (c.before ++ c.found ∷ y ∷ c.after) in
        rw
          (insert_block-placed J fresh params k q q' (some prev) y ys
            (place_after (fresh k) q prev y c))
          (let (p, m) =
              block_placed (suc k) q' y.item_uid ys
                (held_behind-not-Lacks c.before c.after c.found y) in
            (
              p,
              one_more y ys m (
                  Perm.trans (put_behind c.before c.found y c.after)
                    (perm_of_eq (ap (λ l. y ∷ l) (sym c.whole)))),
            ))
  ]

  abbrev Whole : PlanQueue J.Value → List (Item J) → PlanQueue J.Value × Placed → Type 0
  Whole q xs (q', placed) = Perm q'.items (xs ++ q.items)
  Whole q xs (q', refused e) = q' ≡ q

  Whole-of_placed :
      (q : PlanQueue J.Value) (xs : List (Item J)) (r : PlanQueue J.Value × Placed)
      → r.1 ≡ placed
      → Perm r.0.items (xs ++ q.items)
      → Whole q xs r
  Whole-of_placed q xs (q', placed) e m = m
  Whole-of_placed q xs (q', refused x) e m = absurd (ground (arith, e))

  -- The loop adds the whole block, or leaves the queue as it was.
  insert_block-Whole :
      (q : PlanQueue J.Value) (xs : List (Item J))
      → Whole q xs (insert_block J fresh params 0 q none xs)
  insert_block-Whole q [] = rw (insert_block-nil J fresh params 0 q none) (Perm.refl q.items)
  insert_block-Whole q (x ∷ xs) =
      first (place_next J (fresh 0) q params none x) refl
        (place_first-Placing J fresh params (fresh 0) q x)
    where
      first :
          (r : PlanQueue J.Value × Placed)
          → place_next J (fresh 0) q params none x ≡ r
          → Placing J (fresh 0) q x r
          → Whole q (x ∷ xs) (insert_block J fresh params 0 q none (x ∷ xs))
      first (q', refused e) eq p = rw (insert_block-refused J fresh params 0 q q' none x xs e eq) p
      first (q', placed) eq p = rw (insert_block-placed J fresh params 0 q q' none x xs eq) (
          let (d, m) =
            block_placed 1 q' x.item_uid xs
              (rw (sym (ap (λ t. t.items) p.now)) at (held-not-Lacks p.before p.after x)) in
          Whole-of_placed q (x ∷ xs) _ d (
            one_more x xs m (
              Perm.trans (perm_of_eq (ap (λ t. t.items) p.now)) (
                Perm.trans (perm_middle p.before p.after)
                  (perm_of_eq (ap (λ l. x ∷ l) (sym p.old)))))))

  -- The response to a batch: the items it reports are all added, or nothing is.
  abbrev pub AllOrNothing :
      PlanQueue J.Value → Prepared J → PlanQueue J.Value × BatchReply J → Type 0
  AllOrNothing q p (q', batch_rejected n items rs uid) = q' ≡ q
  AllOrNothing q p (q', batch_err e) = q' ≡ q
  AllOrNothing q p (q', batch_added n items rs uid) =
      (items ≡ p.prepared)
      × (insert_block J fresh params 0 q none p.prepared ≡ (q', placed))
      × (n ≡ length q'.items)
      × (uid ≡ q'.queue_uid)
      × (rs ≡ p.results)
      × (p.had_error ≡ false)
      × Perm q'.items (p.prepared ++ q.items)

  whole_of_eq :
      (q : PlanQueue J.Value) (p : Prepared J) (r r' : PlanQueue J.Value × BatchReply J)
      → r ≡ r'
      → AllOrNothing q p r'
      → AllOrNothing q p r
  whole_of_eq q p r r' e h = rw e h

  commit-rejects :
      (q : PlanQueue J.Value) (items : List J.Value) (p : Prepared J)
      → p.had_error ≡ true
      → commit J fresh q params items p
        ≡ (q, batch_rejected (Queue.len q) items p.results q.queue_uid)
  unfolding commit
  commit-rejects q items p bad = ground (arith, bad)

  commit-placed :
      (q q' : PlanQueue J.Value) (items : List J.Value) (p : Prepared J) (d : Placed)
      → p.had_error ≡ false
      → insert_block J fresh params 0 q none p.prepared ≡ (q', d)
      → commit J fresh q params items p ≡ elim d [
        | refused e ↦ (q', batch_err e)
        | placed ↦ (q', batch_added (length q'.items) p.prepared p.results q'.queue_uid)
      ]
  unfolding commit Queue.len
  commit-placed q q' items p (refused e) good eq = ground (arith, good, eq)
  commit-placed q q' items p placed good eq = ground (arith, good, eq)

  commit-whole :
      (q : PlanQueue J.Value) (items : List J.Value) (p : Prepared J)
      → AllOrNothing q p (commit J fresh q params items p)
  commit-whole q items p = elim (Bool-cases p.had_error) [
    | inl bad ↦ whole_of_eq q p _ _ (commit-rejects q items p bad) refl
    | inr good ↦ placing good _ refl (insert_block-Whole q p.prepared)
  ]
    where
      placing :
          p.had_error ≡ false
          → (r : PlanQueue J.Value × Placed) → insert_block J fresh params 0 q none p.prepared ≡ r
          → Whole q p.prepared r
          → AllOrNothing q p (commit J fresh q params items p)
      placing good (q', refused e) eq h =
          whole_of_eq q p _ _ (commit-placed q q' items p (refused e) good eq) h
      placing good (q', placed) eq h =
          whole_of_eq q p _ _ (commit-placed q q' items p placed good eq)
            (refl, eq, refl, refl, refl, good, h)

module _ (J : Json) (params : J.Value) (known : String → Bool) (item_uid : ℕ → String) where
  -- Without an error, every item was accepted and built.
  prepare-accepts :
      (k : ℕ) (items : List J.Value)
      → let p = prepare J known item_uid params k items in
        p.had_error ≡ false → (length p.prepared ≡ length items) × All (λ r. r ≡ accepted) p.results
  unfolding prepare
  prepare-accepts k [] h = (refl, tt)
  prepare-accepts k (x ∷ items) h = elim (Option-cases (str_param J x "name")) [
    | inl e ↦ absurd (ground (arith, e, h))
    | inr (n, e) ↦ elim (Bool-cases (known n)) [
      | inr f ↦ absurd (ground (arith, e, f, h))
      | inl f ↦
          let (l, a) = prepare-accepts (suc k) items (ground (arith, e, f, h)) in
          (ground (arith, e, f, l), rw (accepts k x items n e f) (refl, a))
    ]
  ]
    where
      accepts :
          (k : ℕ) (x : J.Value) (items : List J.Value) (n : String)
          → str_param J x "name" ≡ some n
          → known n ≡ true
          → (prepare J known item_uid params k (x ∷ items)).results
            ≡ accepted ∷ (prepare J known item_uid params (suc k) items).results
      accepts k x items n e f = ground (arith, e, f)

module _ (J : Json) (known : String → Bool) (item_uid fresh : ℕ → String) (q : PlanQueue J.Value)
    (params : J.Value) where
  -- The items as submitted, and as built for the batch.
  abbrev pub submitted : List J.Value
  submitted = or_default [] (array_param J params "items")

  abbrev pub block : List (Item J)
  block = (prepare J known item_uid params 0 submitted).prepared

  -- The response when the items are an array, and the position is not ambiguous.
  batch-commits :
      (items : List J.Value)
      → array_param J params "items" ≡ some items
      → ambiguous J
          (J.get params "pos")
          (str_param J params "before_uid")
          (str_param J params "after_uid")
        ≡ none
      → queue_item_add_batch J known item_uid fresh q params
        ≡ commit J fresh q params items (prepare J known item_uid params 0 items)
  unfolding queue_item_add_batch
  batch-commits items e n = ground (arith, e, n)

  batch-whole :
      AllOrNothing J fresh params q
        (prepare J known item_uid params 0 submitted)
        (queue_item_add_batch J known item_uid fresh q params)
  unfolding queue_item_add_batch
  batch-whole = elim (Option-cases (array_param J params "items")) [
    | inl e ↦
        whole_of_eq J fresh params q (prepare J known item_uid params 0 submitted) _
          (q, batch_err missing_items) (ground (arith, e)) refl
    | inr (items, e) ↦
        elim (Option-cases (
          ambiguous J (J.get params "pos") (str_param J params "before_uid")
            (str_param J params "after_uid"))) [
              | inr (x, n) ↦
                  whole_of_eq J fresh params q (prepare J known item_uid params 0 submitted) _
                    (q, batch_err x) (ground (arith, e, n)) refl
              | inl n ↦
                  whole_of_eq J fresh params q (prepare J known item_uid params 0 submitted) _ _
                    (batch-commits items e n)
                    (subst
                      (λ o.
                        AllOrNothing J fresh params q
                          (prepare J known item_uid params 0 (or_default [] o))
                          (commit J fresh q params items (prepare J known item_uid params 0 items)))
                      (sym e)
                      (commit-whole J fresh params q items
                        (prepare J known item_uid params 0 items)))
            ]
  ]

  -- Whatever the request holds: the queue is as it was, or it holds the items of the block beside
  -- those that it had, each once, and no other; the block has one item for each submitted one, and
  -- the response is that of a success, in which every submitted item is accepted, with the block,
  -- the number of items and the uid of the queue.
  pub batch-atomic :
      let (q', reply) = queue_item_add_batch J known item_uid fresh q params in
      (q' ≡ q)
      ⊎ ((rs : List ItemResult) × (reply ≡ batch_added (length q'.items) block rs q'.queue_uid)
          × (length block ≡ length submitted)
          × All (λ r. r ≡ accepted) rs
          × Perm q'.items (block ++ q.items))
  batch-atomic = outcome _ batch-whole
    where
      p : Prepared J
      p = prepare J known item_uid params 0 submitted

      outcome :
          (r : PlanQueue J.Value × BatchReply J)
          → AllOrNothing J fresh params q p r
          → let (q', reply) = r in
            (q' ≡ q)
            ⊎ ((rs : List ItemResult) × (reply
                  ≡ batch_added (length q'.items) block rs q'.queue_uid)
                × (length block ≡ length submitted)
                × All (λ r. r ≡ accepted) rs
                × Perm q'.items (block ++ q.items))
      outcome (q', batch_rejected n items rs uid) h = inl h
      outcome (q', batch_err e) h = inl h
      outcome (q', batch_added n items rs uid) (i, w, k, u, x, good, m) =
          let (l, a) = prepare-accepts J params known item_uid 0 submitted good in
          inr (rs, cc (i, k, u), l, rw x a, m)

  -- A batch that is added, whose uids are new to the queue and to each other, is one run of
  -- consecutive items in the order of the request, and the other items keep their order.
  pub batch-contiguous :
      (q' : PlanQueue J.Value) (n : ℕ) (items : List (Item J)) (rs : List ItemResult) (uid : String)
      → queue_item_add_batch J known item_uid fresh q params ≡ (q', batch_added n items rs uid)
      → FreshBlock q.items block
      → (before after : List (Item J)) × (q.items ≡ before ++ after)
        × (q'.items ≡ before ++ (block ++ after))
  batch-contiguous q' n items rs uid e f =
      run block f
        (whole_of_eq J fresh params q (prepare J known item_uid params 0 submitted) _ _ (sym e)
          batch-whole).1
    where
      run :
          (xs : List (Item J))
          → FreshBlock q.items xs
          → insert_block J fresh params 0 q none xs ≡ (q', placed)
          → (before after : List (Item J)) × (q.items ≡ before ++ after)
            × (q'.items ≡ before ++ (xs ++ after))
      run [] f h = (
        [],
        q.items,
        refl,
        sym (ap (λ t. t.0.items) (sym (insert_block-nil J fresh params 0 q none) ∙ h)),
      )
      run (x ∷ xs) f h =
          let (b, a, o, w) = insert_block-run J fresh params q x xs f (ap (λ t. t.1) h) in
          (b, a, o, sym (ap (λ t. t.0.items) h) ∙ w)
