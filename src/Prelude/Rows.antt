-- ===== src/Prelude/Rows.antt =====
-- Rows read one by one by their index, where a read out of bounds panics, and lists cut by index.
use bsrs.Prelude.Tests.{ltb, ltb→lt, Bool-cases}
use bsrs.Prelude.Lists.{length, get_elem?, take, drop, All}
use Prim.Native.Nat.{ℕ, zero, suc, ◌+◌, ◌-◌, ◌<◌, ◌≤◌, min}
use mathlib.Core.Path.{subst, ◌≡◌, refl, sym, ap, ◌∙◌}
use mathlib.Core.Logic.{inl, inr}
use mathlib.Core.Bool.{false}
use mathlib.Core.Option.{Option, none, some, some-injective}
use mathlib.Core.List.{List, [], ◌∷◌, ◌++◌, map}
use native.Mathlib.Omega.{arith}

-- Two results appended, where both are there.
abbrev pub join {ℓ} : {A : Type ℓ} → Option (List A) → Option (List A) → Option (List A)
join none b = none
join (some xs) none = none
join (some xs) (some ys) = some (xs ++ ys)

abbrev pub prepend {ℓ} : {A : Type ℓ} → Option A → Option (List A) → Option (List A)
prepend none b = none
prepend (some x) none = none
prepend (some x) (some ys) = some (x ∷ ys)

-- `v[min(start, len)..min(stop, len)]`
abbrev pub slice {ℓ} : {A : Type ℓ} → ℕ → ℕ → List A → List A
slice start stop xs =
    take (min stop (length xs) - min start (length xs)) (drop (min start (length xs)) xs)

pub ltb-ge : (a b : ℕ) → ltb a b ≡ false → b ≤ a
ltb-ge a b h = ground arith

lo_in : (start i n : ℕ) → start + i < n → min start n ≡ start
lo_in start i n h = omega arith

suc_add : (a i : ℕ) → suc a + i ≡ a + suc i
suc_add a i = omega arith

module _ {ℓ} {A : Type ℓ} where
  -- `(a..a + n).map(f)`, where `none` is a panic.
  unfoldable pub rows : (ℕ → Option A) → ℕ → ℕ → Option (List A)
  rows f a zero = some []
  rows f a (suc n) = prepend (f a) (rows f (suc a) n)

  pub rows_congr :
      (f g : ℕ → Option A) (a b n : ℕ)
      → ((k : ℕ) → k < n → f (a + k) ≡ g (b + k))
      → rows f a n ≡ rows g b n
  unfolding rows
  rows_congr f g a b zero h = refl
  rows_congr f g a b (suc n) h =
      let h0 : f a ≡ g b = ap f (omega arith) ∙ h 0 (omega arith) ∙ ap g (omega arith) in
      let t : rows f (suc a) n ≡ rows g (suc b) n =
        rows_congr f g (suc a) (suc b) n
          (λ k l. ap f (omega arith) ∙ h (suc k) (omega arith) ∙ ap g (omega arith)) in
      rw h0 (rw t refl)

  pub join-prepend :
      (x : Option A) (b c : Option (List A)) → join (prepend x b) c ≡ prepend x (join b c)
  join-prepend none b c = refl
  join-prepend (some x) none c = refl
  join-prepend (some x) (some b) none = refl
  join-prepend (some x) (some b) (some c) = refl

  pub join_nil : (b : Option (List A)) → join (some []) b ≡ b
  join_nil none = refl
  join_nil (some b) = refl

  pub rows-append :
      (f : ℕ → Option A) (a m n : ℕ) → rows f a (m + n) ≡ join (rows f a m) (rows f (a + m) n)
  unfolding rows
  rows-append f a zero n =
      let e : 0 + n ≡ n = omega arith in
      let d : a + 0 ≡ a = omega arith in rw e (rw d (sym (join_nil (rows f a n))))
  rows-append f a (suc m) n =
      let e : suc m + n ≡ suc (m + n) = omega arith in
      let t : rows f (suc a) (m + n) ≡ join (rows f (suc a) m) (rows f (a + suc m) n) =
        rows-append f (suc a) m n ∙ ap (λ k. join (rows f (suc a) m) (rows f k n)) (omega arith) in
      rw e
        (ap (prepend (f a)) t ∙ sym (join-prepend (f a) (rows f (suc a) m) (rows f (a + suc m) n)))

  pub get_elem?-take : (n i : ℕ) (xs : List A) → i < n → get_elem? (take n xs) i ≡ get_elem? xs i
  get_elem?-take zero i xs h = absurd (omega arith)
  get_elem?-take (suc n) i [] h = refl
  get_elem?-take (suc n) zero (x ∷ xs) h = refl
  get_elem?-take (suc n) (suc i) (x ∷ xs) h = get_elem?-take n i xs (omega arith)

  pub get_elem?-drop : (n i : ℕ) (xs : List A) → get_elem? (drop n xs) i ≡ get_elem? xs (n + i)
  get_elem?-drop zero i xs = let e : 0 + i ≡ i = omega arith in rw e refl
  get_elem?-drop (suc n) i [] = refl
  get_elem?-drop (suc n) i (x ∷ xs) =
      let e : suc n + i ≡ suc (n + i) = omega arith in rw e (get_elem?-drop n i xs)

  pub get_elem?-past : (i : ℕ) (xs : List A) → length xs ≤ i → get_elem? xs i ≡ none
  get_elem?-past i [] h = refl
  get_elem?-past zero (x ∷ xs) h = absurd (omega arith)
  get_elem?-past (suc i) (x ∷ xs) h = get_elem?-past i xs (omega arith)

  pub length-take : (n : ℕ) (xs : List A) → length (take n xs) ≡ min n (length xs)
  length-take zero xs = omega arith
  length-take (suc n) [] = omega arith
  length-take (suc n) (x ∷ xs) = omega (arith, length-take n xs)

  pub length-drop : (n : ℕ) (xs : List A) → length (drop n xs) ≡ length xs - n
  length-drop zero xs = omega arith
  length-drop (suc n) [] = omega arith
  length-drop (suc n) (x ∷ xs) = omega (arith, length-drop n xs)

  pub length-slice :
      (start stop : ℕ) (xs : List A)
      → length (slice start stop xs) ≡ min stop (length xs) - min start (length xs)
  length-slice start stop xs =
      length-take (min stop (length xs) - min start (length xs)) (drop (min start (length xs)) xs)
      ∙ omega (arith, length-drop (min start (length xs)) xs)

  -- A slice keeps the places of its range.
  pub get_elem?-slice :
      (start stop i : ℕ) (xs : List A)
      → start + i < stop
      → get_elem? (slice start stop xs) i ≡ get_elem? xs (start + i)
  get_elem?-slice start stop i xs h =
      let n = length xs in
      elim (Bool-cases (ltb (start + i) (length xs))) [
        | inl e ↦
            get_elem?-take (min stop n - min start n) i (drop (min start n) xs)
              (omega (arith, ltb→lt (start + i) n e))
            ∙ get_elem?-drop (min start n) i xs
            ∙ rw (lo_in start i n (ltb→lt (start + i) n e)) refl
        | inr e ↦
            get_elem?-past i (slice start stop xs)
              (omega (arith, length-slice start stop xs, ltb-ge (start + i) n e))
            ∙ sym (get_elem?-past (start + i) xs (omega (arith, ltb-ge (start + i) n e)))
      ]

module _ {ℓ κ} {A : Type ℓ} {B : Type κ} where
  -- Two lists of one length, element against element.
  abbrev pub Pairwise : (A → B → Type 0) → List A → List B → Type 0
  Pairwise R [] [] = Unit
  Pairwise R [] (y ∷ ys) = ⊥
  Pairwise R (x ∷ xs) [] = ⊥
  Pairwise R (x ∷ xs) (y ∷ ys) = R x y × Pairwise R xs ys

  -- Reading by index the rows that stand at the places of a list.
  pub rows-Pairwise :
      (R : A → B → Type 0) (f : ℕ → Option B) (a : ℕ) (xs : List A)
      → ((i : ℕ) (x : A) → get_elem? xs i ≡ some x → (y : B) × (f (a + i) ≡ some y) × R x y)
      → (ys : List B) × (rows f a (length xs) ≡ some ys) × Pairwise R xs ys
  unfolding rows
  rows-Pairwise R f a [] h = ([], refl, tt)
  rows-Pairwise R f a (x ∷ xs) h =
      let (y, e, r) = h 0 x refl in
      let d : a + 0 ≡ a = omega arith in
      let e0 : f a ≡ some y = ap f (sym d) ∙ e in
      let (ys, e1, rs) = rows-Pairwise R f (suc a) xs (λ i z g. rw (suc_add a i) (h (suc i) z g)) in
      (y ∷ ys, rw e0 (rw e1 refl), (r, rs))

pub get_elem?-All {ℓ} :
    {B : Type ℓ} (P : B → Type 0) (i : ℕ) (x : B) (xs : List B)
    → All P xs
    → get_elem? xs i ≡ some x
    → P x
get_elem?-All P i x [] a h = absurd (ground (arith, h))
get_elem?-All P zero x (y ∷ xs) a h = subst P (some-injective _ _ h) a.0
get_elem?-All P (suc i) x (y ∷ xs) a h = get_elem?-All P i x xs a.1 h

pub get_elem?-map {ℓ κ} :
    {A : Type ℓ} {B : Type κ} (f : A → B) (i : ℕ) (x : A) (xs : List A)
    → get_elem? xs i ≡ some x
    → get_elem? (map f xs) i ≡ some (f x)
get_elem?-map f i x [] h = absurd (ground (arith, h))
get_elem?-map f zero x (y ∷ xs) h = ap (λ z. some (f z)) (some-injective _ _ h)
get_elem?-map f (suc i) x (y ∷ xs) h = get_elem?-map f i x xs h

pub All-map {ℓ κ} :
    {A : Type ℓ} {B : Type κ} (P : B → Type 0) (f : A → B) (xs : List A)
    → All (λ x. P (f x)) xs
    → All P (map f xs)
All-map P f [] h = tt
All-map P f (x ∷ xs) h = (h.0, All-map P f xs h.1)

pub All-weaken {ℓ κ μ} :
    {A : Type ℓ} (P : A → Type κ) (Q : A → Type μ)
    → ((a : A) → P a → Q a)
    → (xs : List A) → All P xs
    → All Q xs
All-weaken P Q f [] h = tt
All-weaken P Q f (x ∷ xs) h = (f x h.0, All-weaken P Q f xs h.1)
