-- ===== src/Runs/Pages/Chunks.antt =====
-- The loop of both rechunkings of crates/bsrs/src/event_model/page.rs: it loses and doubles no row.
use bsrs.Prelude.{
  ℕ, zero, suc, ◌+◌, ◌-◌, ◌<◌, ◌≤◌, min, ◌≡◌, refl, sym, ap, ◌∙◌, ◌⊎◌, inl, inr, Option, some, List,
  [], ◌∷◌, map, arith, ltb, ltb→lt, length, get_elem?, take, drop, Bool-cases,
}
use bsrs.Prelude.Rows.{
  join, rows, rows-append, get_elem?-take, get_elem?-drop, length-take, length-drop, ltb-ge,
}
use bsrs.Runs.Pages.{range, chunks}

-- The documents of several pages, one page after the other.
abbrev pub unpack_all {ℓ κ} :
    {A : Type ℓ} {D : Type κ} → (A → Option (List D)) → List A → Option (List D)
unpack_all unpack [] = some []
unpack_all unpack (p ∷ ps) = join (unpack p) (unpack_all unpack ps)

module _ {ℓ} {A : Type ℓ} where
  pub range-length :
      (start stop : ℕ) (xs : List A)
      → stop ≤ length xs
      → range start stop xs ≡ some (take (stop - start) (drop start xs))
  unfolding range
  range-length start stop xs h = ground (arith, h)

  pub get_elem?-range :
      (start stop i : ℕ) (xs : List A)
      → start + i < stop
      → get_elem? (take (stop - start) (drop start xs)) i ≡ get_elem? xs (start + i)
  get_elem?-range start stop i xs h =
      get_elem?-take (stop - start) i (drop start xs) (omega arith) ∙ get_elem?-drop start i xs

  pub length-range :
      (start stop : ℕ) (xs : List A)
      → start ≤ stop
      → stop ≤ length xs
      → length (take (stop - start) (drop start xs)) ≡ stop - start
  length-range start stop xs h k =
      omega (arith, h, k, length-take (stop - start) (drop start xs), length-drop start xs)

-- Sizes of chunks: each is `size`, but the last, which has from 1 to `size`.
abbrev pub IsChunked : ℕ → List ℕ → Type 0
IsChunked size [] = Unit
IsChunked size (k ∷ []) = (0 < k) × (k ≤ size)
IsChunked size (k ∷ l ∷ ns) = (k ≡ size) × IsChunked size (l ∷ ns)

IsChunked-next :
    (size k : ℕ) (ns : List ℕ)
    → 0 < k
    → k ≤ size
    → (ns ≡ []) ⊎ (k ≡ size)
    → IsChunked size ns
    → IsChunked size (k ∷ ns)
IsChunked-next size k [] p q e h = (p, q)
IsChunked-next size k (l ∷ ns) p q (inl e) h = absurd (ground (arith, e))
IsChunked-next size k (l ∷ ns) p q (inr e) h = (e, h)

pub none_left : (n s : ℕ) → n ≤ s → n - s ≡ 0
none_left n s h = omega arith

pub parts_sum : (n a b : ℕ) → a ≤ b → b ≤ n → n - a ≡ (b - a) + (n - b)
parts_sum n a b h k = omega arith

pub part_end : (a b : ℕ) → a ≤ b → a + (b - a) ≡ b
part_end a b h = omega arith

pub zero_add : (i : ℕ) → 0 + i ≡ i
zero_add i = omega arith

pub sub_zero : (n : ℕ) → n - 0 ≡ n
sub_zero n = omega arith

-- A copy of the rows from `start` to `stop` has these rows, so the loop loses and doubles none.
module _ {ℓ κ} {A : Type ℓ} {D : Type κ} (cut : ℕ → ℕ → Option A) (unpack : A → Option (List D))
    (size_of : A → ℕ) (f : ℕ → Option D) (n : ℕ) where
  abbrev pub Cuts : Type (ℓ ⊔ κ)
  Cuts =
      (start stop : ℕ)
      → start < stop
      → stop ≤ n
      → (c : A) × (cut start stop ≡ some c)
        × (unpack c ≡ rows f start (stop - start))
        × (size_of c ≡ stop - start)

  pub two_parts :
      (start stop : ℕ)
      → start ≤ stop
      → stop ≤ n
      → join (rows f start (stop - start)) (rows f stop (n - stop)) ≡ rows f start (n - start)
  two_parts start stop k l = sym (
      ap (rows f start) (parts_sum n start stop k l)
      ∙ rows-append f start (stop - start) (n - stop)
      ∙ ap (λ x. join (rows f start (stop - start)) (rows f x (n - stop))) (part_end start stop k))

  pub chunks-rows :
      (size : ℕ)
      → Cuts
      → 0 < size
      → (fuel start : ℕ) → n ≤ start + fuel
      → (cs : List A) × (chunks cut n size fuel start ≡ some cs)
        × (unpack_all unpack cs ≡ rows f start (n - start))
        × IsChunked size (map size_of cs)
        × ((cs ≡ []) ⊎ (start < n))
  unfolding chunks rows
  chunks-rows size h p zero start l =
      ([], refl, rw (none_left n start (omega (arith, l))) refl, tt, inl refl)
  chunks-rows size h p (suc fuel) start l = elim (Bool-cases (ltb start n)) [
    | inr e ↦ ([], rw e refl, rw (none_left n start (ltb-ge start n e)) refl, tt, inl refl)
    | inl e ↦
        let stop = min (start + size) n in
        let (c, e1, e2, e3) = h start stop (omega (arith, ltb→lt start n e)) (omega arith) in
        let (cs, e4, e5, e6, e7) = chunks-rows size h p fuel stop (omega arith) in
        (
          c ∷ cs,
          rw e (rw e1 (rw e4 refl)),
          ap (λ x. join x (unpack_all unpack cs)) e2
              ∙ ap (join (rows f start (stop - start))) e5
              ∙ two_parts start stop (omega (arith, ltb→lt start n e)) (omega arith),
          IsChunked-next size (size_of c) (map size_of cs) (omega (arith, e3, ltb→lt start n e))
              (omega (arith, e3))
              (elim e7 [ inl z ↦ inl (ap (map size_of) z) | inr z ↦ inr (omega (arith, e3, z)) ])
              e6,
          inr (ltb→lt start n e),
        )
  ]
