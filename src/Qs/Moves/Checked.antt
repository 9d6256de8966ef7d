-- ===== src/Qs/Moves/Checked.antt =====
-- What the validation of a batch move (crates/bsrs/src/qs/dispatch.rs) ensures.
use bsrs.Prelude.{
  ℕ, ◌≡◌, refl, sym, ap, ◌∙◌, inl, inr, Bool, true, false, String, none, some, List, [], ◌∷◌, arith,
  str_eq, length, any, All, Option-cases, Bool-cases, if◌then◌else◌,
}
use bsrs.Prelude.Splits.{Cut, cut, find-Lacks, position-Cut}
use bsrs.Qs.Queue
use bsrs.Qs.Queue.{QueuedItem, PlanQueue, has_uid}
use bsrs.Qs.Items.{is_some}
use bsrs.Qs.Moves.Texts.{not_in_batch, Apart, find_duplicate-none, All-sort, Apart-sort}
use bsrs.Qs.Moves.Each.{Held, Held-Cut, any-put}
use bsrs.Qs.Moves.{
  MoveError, Destination, to_pos, before, after, validate, in_order, find_duplicate, missing_from,
  check_reference, with_index, sort_by_key, seconds,
}

module _ {V : Type 0} where
  -- A destination whose reference is held, and is not in the batch.
  abbrev pub RefGood : PlanQueue V → Destination → List String → Type 0
  RefGood q (to_pos dest) us = Unit
  RefGood q (before b) us = Held q.items b × All (λ u. str_eq b u ≡ false) us
  RefGood q (after a) us = Held q.items a × All (λ u. str_eq a u ≡ false) us

  -- `get_by_uid` finds an item exactly where one is held.
  get_by_uid-Held :
      (q : PlanQueue V) (u : String) → is_some (Queue.get_by_uid q u) ≡ true → Held q.items u
  unfolding Queue.get_by_uid
  get_by_uid-Held q u h = elim (Bool-cases (any (has_uid u) q.items)) [
    | inl e ↦ e
    | inr e ↦ elim (cut (has_uid u) q.items) [
      | inr l ↦ absurd (ground (arith, h, find-Lacks (has_uid u) q.items l))
      | inl c ↦ absurd (ground (arith, e, held_cut c))
    ]
  ]
    where
      held_cut : (c : Cut (has_uid u) q.items) → any (has_uid u) q.items ≡ true
      held_cut c =
          ap (any (has_uid u)) c.whole
          ∙ ground (arith, any-put (has_uid u) c.before c.found c.after, c.passes)

  missing_from-nil :
      (q : PlanQueue V) (us : List String) → missing_from q us ≡ [] → All (Held q.items) us
  unfolding missing_from
  missing_from-nil q [] h = tt
  missing_from-nil q (u ∷ us) h = elim (Bool-cases (is_some (Queue.get_by_uid q u))) [
    | inr e ↦ absurd (ground (arith, e, h))
    | inl e ↦ (get_by_uid-Held q u e, missing_from-nil q us (ground (arith, e, h)))
  ]

  reference_checked :
      (q : PlanQueue V) (b : String) (us : List String) (e e' : MoveError)
      → (if any (λ u. str_eq u b) us
          then some e
          else if is_some (Queue.get_by_uid q b)
          then none
          else some e')
        ≡ none
      → Held q.items b × All (λ u. str_eq b u ≡ false) us
  reference_checked q b us e e' h = elim (Bool-cases (any (λ u. str_eq u b) us)) [
    | inl x ↦ absurd (ground (arith, x, h))
    | inr x ↦ elim (Bool-cases (is_some (Queue.get_by_uid q b))) [
      | inl y ↦ (get_by_uid-Held q b y, not_in_batch b us x)
      | inr y ↦ absurd (ground (arith, x, y, h))
    ]
  ]

  check_reference-RefGood :
      (q : PlanQueue V) (dest : Destination) (us : List String)
      → check_reference q dest us ≡ none
      → RefGood q dest us
  unfolding check_reference
  check_reference-RefGood q (to_pos dest) us h = tt
  check_reference-RefGood q (before b) us h = reference_checked q b us _ _ h
  check_reference-RefGood q (after a) us h = reference_checked q a us _ _ h

  pub validate-none :
      (q : PlanQueue V) (dest : Destination) (us : List String)
      → validate q dest us ≡ none
      → All (Held q.items) us × Apart us × RefGood q dest us
  unfolding validate
  validate-none q dest us h = elim (Option-cases (find_duplicate [] us)) [
    | inr (u, e) ↦ absurd (ground (arith, e, h))
    | inl e ↦
        let (n, g) = checked e (missing_from q us) refl in
        (
          missing_from-nil q us n,
          (find_duplicate-none [] us e).0,
          check_reference-RefGood q dest us g,
        )
  ]
    where
      checked :
          find_duplicate [] us ≡ none
          → (ms : List String) → missing_from q us ≡ ms
          → (missing_from q us ≡ []) × (check_reference q dest us ≡ none)
      checked e [] m = (m, ground (arith, e, m, h))
      checked e (x ∷ xs) m = absurd (ground (arith, e, m, h))

  -- With every uid held, each has an index.
  with_index-some :
      (q : PlanQueue V) (us : List String)
      → All (Held q.items) us
      → (xs : List (ℕ × String)) × (with_index q us ≡ some xs) × (seconds xs ≡ us)
  unfolding with_index Queue.index_of_uid
  with_index-some q [] h = ([], refl, refl)
  with_index-some q (u ∷ us) h =
      let c = Held-Cut u q.items h.0 in
      let (xs, e, s) = with_index-some q us h.1 in
      ((length c.before, u) ∷ xs, ground (arith, position-Cut c, e), ap (λ l. u ∷ l) s)

  -- The order of the moves exists, and has the properties of the uids as given.
  pub in_order-some :
      (q : PlanQueue V) (reorder : Bool) (us : List String)
      → All (Held q.items) us
      → Apart us
      → (vs : List String) × (in_order q reorder us ≡ some vs)
        × Apart vs
        × ((P : String → Type 0) → All P us → All P vs)
  unfolding in_order
  in_order-some q false us h a = (us, refl, a, λ P x. x)
  in_order-some q true us h a =
      let (xs, e, s) = with_index-some q us h in
      (
        seconds (sort_by_key xs),
        ground (arith, e),
        Apart-sort xs (rw (sym s) at a),
        λ P x. All-sort P xs (rw (sym s) at x),
      )

  pub RefGood-order :
      (q : PlanQueue V) (dest : Destination) (us vs : List String)
      → ((P : String → Type 0) → All P us → All P vs)
      → RefGood q dest us
      → RefGood q dest vs
  RefGood-order q (to_pos dest) us vs f g = tt
  RefGood-order q (before b) us vs f g = (g.0, f _ g.1)
  RefGood-order q (after b) us vs f g = (g.0, f _ g.1)
