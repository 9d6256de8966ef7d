-- ===== src/Qs/Moves/Texts.antt =====
-- The texts of a batch move (crates/bsrs/src/qs/dispatch.rs): none twice, and sorted by a key.
use bsrs.Prelude.{
  ℕ, ◌≡◌, inl, inr, Bool, true, false, String, none, List, [], ◌∷◌, arith, str_eq, str_eq_iff, any,
  All, Bool-cases, if◌then◌else◌, leb,
}
use bsrs.Qs.Moves.{find_duplicate, sort_by_key, insert_by_key, seconds}

-- No text twice.
abbrev pub Apart : List String → Type 0
Apart [] = Unit
Apart (u ∷ us) = All (λ v. str_eq u v ≡ false) us × Apart us

pub All-map :
    {P Q : String → Type 0} (us : List String) → ((u : String) → P u → Q u) → All P us → All Q us
All-map [] f h = tt
All-map (u ∷ us) f h = (f u h.0, All-map us f h.1)

not-seen :
    (u : String) (xs : List String) → any (str_eq u) xs ≡ false → All (λ v. str_eq u v ≡ false) xs
not-seen u [] h = tt
not-seen u (x ∷ xs) h = (ground (arith, h), not-seen u xs (ground (arith, h)))

-- The search for a duplicate found none.
pub find_duplicate-none :
    (seen us : List String)
    → find_duplicate seen us ≡ none
    → Apart us × All (λ u. All (λ v. str_eq u v ≡ false) seen) us
unfolding find_duplicate
find_duplicate-none seen [] h = (tt, tt)
find_duplicate-none seen (u ∷ us) h = elim (Bool-cases (any (str_eq u) seen)) [
  | inl e ↦ absurd (ground (arith, e, h))
  | inr e ↦
      let (a, s) = find_duplicate-none (u ∷ seen) us (ground (arith, e, h)) in
      (
        (All-map us (λ v k. ground (arith, k.0, str_eq_iff u v, str_eq_iff v u)) s, a),
        (not-seen u seen e, All-map us (λ v k. k.1) s),
      )
]

-- Sorting keeps what holds of every text, and keeps them apart.
All-insert :
    (P : String → Type 0) (x : ℕ × String) (ys : List (ℕ × String))
    → P x.1
    → All P (seconds ys)
    → All P (seconds (insert_by_key x ys))
unfolding insert_by_key
All-insert P x [] p h = (p, tt)
All-insert P x (y ∷ ys) p h = go (leb x.0 y.0) (All-insert P x ys p h.1)
  where
    go :
        (b : Bool)
        → All P (seconds (insert_by_key x ys))
        → All P (seconds (if b then x ∷ (y ∷ ys) else y ∷ insert_by_key x ys))
    go true k = (p, h)
    go false k = (h.0, k)

Apart-insert :
    (x : ℕ × String) (ys : List (ℕ × String))
    → All (λ v. str_eq x.1 v ≡ false) (seconds ys)
    → Apart (seconds ys)
    → Apart (seconds (insert_by_key x ys))
unfolding insert_by_key
Apart-insert x [] p h = (tt, tt)
Apart-insert x (y ∷ ys) p h = go (leb x.0 y.0) (Apart-insert x ys p.1 h.1)
  where
    go :
        (b : Bool)
        → Apart (seconds (insert_by_key x ys))
        → Apart (seconds (if b then x ∷ (y ∷ ys) else y ∷ insert_by_key x ys))
    go true k = (p, h)
    go false k = (
      All-insert (λ v. str_eq y.1 v ≡ false) x ys
          (ground (arith, p.0, str_eq_iff x.1 y.1, str_eq_iff y.1 x.1)) h.0,
      k,
    )

pub All-sort :
    (P : String → Type 0) (xs : List (ℕ × String))
    → All P (seconds xs)
    → All P (seconds (sort_by_key xs))
unfolding sort_by_key
All-sort P [] h = tt
All-sort P (x ∷ xs) h = All-insert P x (sort_by_key xs) h.0 (All-sort P xs h.1)

pub Apart-sort : (xs : List (ℕ × String)) → Apart (seconds xs) → Apart (seconds (sort_by_key xs))
unfolding sort_by_key
Apart-sort [] h = tt
Apart-sort (x ∷ xs) h =
    Apart-insert x (sort_by_key xs) (All-sort (λ v. str_eq x.1 v ≡ false) xs h.0)
      (Apart-sort xs h.1)

pub not_in_batch :
    (b : String) (us : List String)
    → any (λ u. str_eq u b) us ≡ false
    → All (λ u. str_eq b u ≡ false) us
not_in_batch b [] h = tt
not_in_batch b (u ∷ us) h =
    (ground (arith, h, str_eq_iff u b, str_eq_iff b u), not_in_batch b us (ground (arith, h)))
