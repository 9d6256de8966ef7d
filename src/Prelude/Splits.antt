-- ===== src/Prelude/Splits.antt =====
-- A list cut where `position` stops: the operations by index become equations on the two halves.
use bsrs.Prelude.Tests.{Bool-cases}
use bsrs.Prelude.Lists.{
  length, get_elem?, set, insert_idx, remove_idx, position_from, position, find, All,
}
use Prim.Native.Nat.{ℕ, zero, suc, ◌+◌, ◌≤◌}
use mathlib.Core.Path.{◌≡◌, refl, ap, ◌∙◌}
use mathlib.Core.Logic.{◌⊎◌, inl, inr}
use mathlib.Core.Bool.{Bool, true, false}
use mathlib.Core.Option.{none, some}
use mathlib.Core.List.{List, [], ◌∷◌, ◌++◌}
use native.Mathlib.Omega.{arith}

module _ {ℓ} {A : Type ℓ} where
  -- `xs` is `before ++ at ∷ after`, and `at` is its first element that passes `p`.
  pub record Cut (p : A → Bool) (xs : List A) : Type ℓ where
    pub before : List A
    pub found : A
    pub after : List A
    pub whole : xs ≡ before ++ found ∷ after
    pub passes : p found ≡ true
    pub earliest : All (λ x. p x ≡ false) before

  -- No element passes.
  abbrev pub Lacks : (A → Bool) → List A → Type 0
  Lacks p xs = All (λ x. p x ≡ false) xs

  Cut-head : (p : A → Bool) (x : A) (xs : List A) → p x ≡ true → Cut p (x ∷ xs)
  Cut-head p x xs h = record {
    before = [];
    found = x;
    after = xs;
    whole = refl;
    passes = h;
    earliest = tt;
  }

  Cut-tail : (p : A → Bool) (x : A) {xs : List A} → p x ≡ false → Cut p xs → Cut p (x ∷ xs)
  Cut-tail p x h c = record {
    before = x ∷ c.before;
    found = c.found;
    after = c.after;
    whole = ap (◌∷◌ x) c.whole;
    passes = c.passes;
    earliest = (h, c.earliest);
  }

  -- A search either stops at a first element, or passes none.
  pub cut : (p : A → Bool) (xs : List A) → Cut p xs ⊎ Lacks p xs
  cut p [] = inr tt
  cut p (x ∷ xs) = elim (Bool-cases (p x)) [
    | inl h ↦ inl (Cut-head p x xs h)
    | inr h ↦ elim (cut p xs) [ inl c ↦ inl (Cut-tail p x h c) | inr l ↦ inr (h, l) ]
  ]

  position_from-cut :
      (p : A → Bool) (i : ℕ) (b : List A) (x : A) (a : List A)
      → Lacks p b
      → p x ≡ true
      → position_from i p (b ++ x ∷ a) ≡ some (i + length b)
  position_from-cut p i [] x a l h = rw h (ap some (omega arith))
  position_from-cut p i (y ∷ b) x a l h =
      rw l.0 (position_from-cut p (suc i) b x a l.1 h ∙ ap some (omega arith))

  find-cut :
      (p : A → Bool) (b : List A) (x : A) (a : List A)
      → Lacks p b
      → p x ≡ true
      → find p (b ++ x ∷ a) ≡ some x
  find-cut p [] x a l h = rw h
  find-cut p (y ∷ b) x a l h = rw l.0 (find-cut p b x a l.1 h)

  position_from-Lacks :
      (p : A → Bool) (i : ℕ) (xs : List A) → Lacks p xs → position_from i p xs ≡ none
  position_from-Lacks p i [] l = refl
  position_from-Lacks p i (x ∷ xs) l = rw l.0 (position_from-Lacks p (suc i) xs l.1)

  -- The two searches, at a cut and where nothing passes.
  pub position-Cut :
      {p : A → Bool} {xs : List A} (c : Cut p xs) → position p xs ≡ some (length c.before)
  position-Cut {p} {xs} c =
      rw c.whole
        (position_from-cut p 0 c.before c.found c.after c.earliest c.passes ∙ ap some (omega arith))

  pub find-Cut : {p : A → Bool} {xs : List A} (c : Cut p xs) → find p xs ≡ some c.found
  find-Cut {p} c = rw c.whole (find-cut p c.before c.found c.after c.earliest c.passes)

  pub position-Lacks : (p : A → Bool) (xs : List A) → Lacks p xs → position p xs ≡ none
  position-Lacks p xs l = position_from-Lacks p 0 xs l

  pub find-Lacks : (p : A → Bool) (xs : List A) → Lacks p xs → find p xs ≡ none
  find-Lacks p [] l = refl
  find-Lacks p (x ∷ xs) l = rw l.0 (find-Lacks p xs l.1)

  -- The operations by index, at the length of the first half.
  pub get_elem?-at : (b : List A) (x : A) (a : List A) → get_elem? (b ++ x ∷ a) (length b) ≡ some x
  get_elem?-at [] x a = refl
  get_elem?-at (y ∷ b) x a = get_elem?-at b x a

  pub set-at :
      (b : List A) (x : A) (a : List A) (v : A) → set (b ++ x ∷ a) (length b) v ≡ b ++ v ∷ a
  set-at [] x a v = refl
  set-at (y ∷ b) x a v = ap (◌∷◌ y) (set-at b x a v)

  pub remove_idx-at :
      (b : List A) (x : A) (a : List A) → remove_idx (b ++ x ∷ a) (length b) ≡ b ++ a
  remove_idx-at [] x a = refl
  remove_idx-at (y ∷ b) x a = ap (◌∷◌ y) (remove_idx-at b x a)

  pub insert_idx-at : (b a : List A) (v : A) → insert_idx (b ++ a) (length b) v ≡ b ++ v ∷ a
  insert_idx-at [] a v = refl
  insert_idx-at (y ∷ b) a v = ap (◌∷◌ y) (insert_idx-at b a v)

  pub insert_idx-after :
      (b : List A) (x : A) (a : List A) (v : A)
      → insert_idx (b ++ x ∷ a) (suc (length b)) v ≡ b ++ x ∷ v ∷ a
  insert_idx-after [] x a v = refl
  insert_idx-after (y ∷ b) x a v = ap (◌∷◌ y) (insert_idx-after b x a v)

  pub insert_idx-length : (xs : List A) (v : A) → insert_idx xs (length xs) v ≡ xs ++ v ∷ []
  insert_idx-length [] v = refl
  insert_idx-length (x ∷ xs) v = ap (◌∷◌ x) (insert_idx-length xs v)

  -- Any list cut at an index within it.
  pub cut_at :
      (i : ℕ) (xs : List A)
      → i ≤ length xs
      → (b : List A) × (a : List A) × (xs ≡ b ++ a) × (length b ≡ i)
  cut_at zero xs h = ([], xs, refl, refl)
  cut_at (suc i) [] h = absurd (omega arith)
  cut_at (suc i) (x ∷ xs) h =
      let (b, a, e, n) = cut_at i xs (omega arith) in (x ∷ b, a, ap (◌∷◌ x) e, ap suc n)

  -- The same at a cut of the whole list.
  module _ {p : A → Bool} {xs : List A} (c : Cut p xs) where
    pub get_elem?-Cut : get_elem? xs (length c.before) ≡ some c.found
    get_elem?-Cut = rw c.whole (get_elem?-at c.before c.found c.after)

    pub remove_idx-Cut : remove_idx xs (length c.before) ≡ c.before ++ c.after
    remove_idx-Cut = rw c.whole (remove_idx-at c.before c.found c.after)

    pub set-Cut : (v : A) → set xs (length c.before) v ≡ c.before ++ v ∷ c.after
    set-Cut v = rw c.whole (set-at c.before c.found c.after v)

    pub insert_idx-Cut :
        (v : A) → insert_idx xs (length c.before) v ≡ c.before ++ v ∷ c.found ∷ c.after
    insert_idx-Cut v = rw c.whole (insert_idx-at c.before (c.found ∷ c.after) v)

    pub insert_idx-Cut_suc :
        (v : A) → insert_idx xs (suc (length c.before)) v ≡ c.before ++ c.found ∷ v ∷ c.after
    insert_idx-Cut_suc v = rw c.whole (insert_idx-after c.before c.found c.after v)
