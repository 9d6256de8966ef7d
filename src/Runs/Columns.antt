-- ===== src/Runs/Columns.antt =====
-- The column stores of crates/bsrs/src/event_model/page.rs: a `HashMap` from keys to columns, filled
-- row by row, cut by index, and read back row by row.
use bsrs.Prelude.{
  ℕ, zero, suc, ◌+◌, ◌<◌, ◌≡◌, refl, sym, ap, ◌∙◌, inl, inr, Bool, true, false, String, Option,
  none, some, List, [], ◌∷◌, ◌++◌, map, arith, if◌then◌else◌, str_eq, str_eq_iff, get_elem?, All,
  Option-cases, Bool-cases,
}
use mathlib.Core.List.{append-nil, append_assoc}
use bsrs.Prelude.Rows.{slice, get_elem?-slice, get_elem?-All}
use bsrs.Prelude.Maps.{lookup, HasKeysApart}

module _ {A : Type 0} where
  abbrev pub or_nil : Option (List A) → List A
  or_nil none = []
  or_nil (some xs) = xs

  -- `cols.entry(k).or_default().extend(col)`
  unfoldable pub extend_col : String → List A → List (String × List A) → List (String × List A)
  extend_col k vs [] = (k, vs) ∷ []
  extend_col k vs ((j, col) ∷ m) =
      if str_eq j k then (j, col ++ vs) ∷ m else (j, col) ∷ extend_col k vs m

  -- One row's entries, each to its column.
  unfoldable pub push_row : List (String × A) → List (String × List A) → List (String × List A)
  unfolding extend_col
  push_row [] m = m
  push_row ((k, v) ∷ row) m = push_row row (extend_col k (v ∷ []) m)

  -- One page's columns, each to its column.
  unfoldable pub push_cols :
      List (String × List A) → List (String × List A) → List (String × List A)
  unfolding extend_col
  push_cols [] m = m
  push_cols ((k, col) ∷ cols) m = push_cols cols (extend_col k col m)

  -- The entries of row i.
  unfoldable pub row_of : ℕ → List (String × List A) → List (String × A)
  row_of i [] = []
  row_of i ((k, col) ∷ m) = elim (get_elem? col i) [
    | none ↦ row_of i m
    | some v ↦ (k, v) ∷ row_of i m
  ]

  unfoldable pub slice_cols : ℕ → ℕ → List (String × List A) → List (String × List A)
  slice_cols start stop = map (λ e. (e.0, slice start stop e.1))

  -- Every row, and every page's columns, into one store.
  unfoldable pub push_rows :
      List (List (String × A)) → List (String × List A) → List (String × List A)
  push_rows [] m = m
  push_rows (row ∷ rest) m = push_rows rest (push_row row m)

  unfoldable pub push_pages :
      List (List (String × List A)) → List (String × List A) → List (String × List A)
  push_pages [] m = m
  push_pages (cols ∷ rest) m = push_pages rest (push_cols cols m)

  pub lookup-extend_col :
      (j k : String) (vs : List A) (m : List (String × List A))
      → or_nil (lookup j (extend_col k vs m))
        ≡ (if str_eq k j then or_nil (lookup j m) ++ vs else or_nil (lookup j m))
  unfolding lookup extend_col
  lookup-extend_col j k vs [] = ground arith
  lookup-extend_col j k vs ((i, col) ∷ m) =
      ground (arith, str_eq_iff k j, str_eq_iff i k, str_eq_iff i j, lookup-extend_col j k vs m)

  lookup-extend_col_other :
      (j k : String) (vs : List A) (m : List (String × List A))
      → str_eq k j ≡ false
      → lookup j (extend_col k vs m) ≡ lookup j m
  unfolding lookup extend_col
  lookup-extend_col_other j k vs [] h = ground arith
  lookup-extend_col_other j k vs ((i, col) ∷ m) h =
      ground
        (arith, str_eq_iff k j, str_eq_iff i k, str_eq_iff i j, lookup-extend_col_other j k vs m h)

  -- The columns keep different keys.
  pub extend_col-HasKeysApart :
      (k : String) (vs : List A) (m : List (String × List A))
      → HasKeysApart m
      → HasKeysApart (extend_col k vs m)
  unfolding lookup extend_col
  extend_col-HasKeysApart k vs [] h = (refl, tt)
  extend_col-HasKeysApart k vs ((i, col) ∷ m) h = elim (Bool-cases (str_eq i k)) [
    | inl e ↦ rw e h
    | inr e ↦ rw e (
      lookup-extend_col_other i k vs m (ground (arith, e, str_eq_iff i k, str_eq_iff k i)) ∙ h.0,
      extend_col-HasKeysApart k vs m h.1,
    )
  ]

  pub push_row-HasKeysApart :
      (row : List (String × A)) (m : List (String × List A))
      → HasKeysApart m
      → HasKeysApart (push_row row m)
  unfolding push_row
  push_row-HasKeysApart [] m h = h
  push_row-HasKeysApart ((k, v) ∷ row) m h =
      push_row-HasKeysApart row (extend_col k (v ∷ []) m) (extend_col-HasKeysApart k (v ∷ []) m h)

  -- What a row adds to a column.
  abbrev pub one : Option A → List A
  one none = []
  one (some v) = v ∷ []

  pub lookup-push_row :
      (j : String) (row : List (String × A)) (m : List (String × List A))
      → HasKeysApart row
      → or_nil (lookup j (push_row row m)) ≡ or_nil (lookup j m) ++ one (lookup j row)
  unfolding push_row lookup
  lookup-push_row j [] m h = sym (append-nil (or_nil (lookup j m)))
  lookup-push_row j ((k, v) ∷ row) m h = elim (Bool-cases (str_eq k j)) [
    | inr e ↦ ground (
      arith,
      e,
      lookup-push_row j row (extend_col k (v ∷ []) m) h.1,
      lookup-extend_col j k (v ∷ []) m,
    )
    | inl e ↦ ground (
      arith,
      e,
      str_eq_iff k j,
      h.0,
      lookup-push_row j row (extend_col k (v ∷ []) m) h.1,
      lookup-extend_col j k (v ∷ []) m,
      append-nil (or_nil (lookup j m) ++ v ∷ []),
    )
  ]

  -- A row reads its place in each column.
  pub lookup-row_of :
      (j : String) (i : ℕ) (m : List (String × List A))
      → HasKeysApart m
      → lookup j (row_of i m) ≡ get_elem? (or_nil (lookup j m)) i
  unfolding lookup row_of
  lookup-row_of j i [] h = ground arith
  lookup-row_of j i ((k, col) ∷ m) h = elim (Option-cases (get_elem? col i)) [
    | inl e ↦ ground (arith, e, str_eq_iff k j, h.0, lookup-row_of j i m h.1)
    | inr (v, e) ↦ ground (arith, e, str_eq_iff k j, h.0, lookup-row_of j i m h.1)
  ]

  -- A cut store has the rows of its range.
  pub row_of-slice_cols :
      (start stop i : ℕ) (m : List (String × List A))
      → start + i < stop
      → row_of i (slice_cols start stop m) ≡ row_of (start + i) m
  unfolding row_of slice_cols
  row_of-slice_cols start stop i [] h = refl
  row_of-slice_cols start stop i ((k, col) ∷ m) h =
      elim (Option-cases (get_elem? col (start + i))) [
        | inl e ↦
            ground
              (arith, e, get_elem?-slice start stop i col h, row_of-slice_cols start stop i m h)
        | inr (v, e) ↦
            ground
              (arith, e, get_elem?-slice start stop i col h, row_of-slice_cols start stop i m h)
      ]

  -- What a list of rows puts in the column of a key.
  abbrev pub gather : String → List (List (String × A)) → List A
  gather j [] = []
  gather j (row ∷ rest) = one (lookup j row) ++ gather j rest

  pub lookup-push_rows :
      (j : String) (rs : List (List (String × A))) (m : List (String × List A))
      → All (λ r. HasKeysApart r) rs
      → or_nil (lookup j (push_rows rs m)) ≡ or_nil (lookup j m) ++ gather j rs
  unfolding push_rows
  lookup-push_rows j [] m h = sym (append-nil (or_nil (lookup j m)))
  lookup-push_rows j (r ∷ rs) m h =
      lookup-push_rows j rs (push_row r m) h.1
      ∙ rw (lookup-push_row j r m h.0)
          (append_assoc (or_nil (lookup j m)) (one (lookup j r)) (gather j rs))

  pub push_rows-HasKeysApart :
      (rs : List (List (String × A))) (m : List (String × List A))
      → HasKeysApart m
      → HasKeysApart (push_rows rs m)
  unfolding push_rows
  push_rows-HasKeysApart [] m h = h
  push_rows-HasKeysApart (r ∷ rs) m h =
      push_rows-HasKeysApart rs (push_row r m) (push_row-HasKeysApart r m h)

  -- What a list of stores has in the column of a key.
  abbrev pub columns : String → List (List (String × List A)) → List A
  columns j [] = []
  columns j (cols ∷ rest) = or_nil (lookup j cols) ++ columns j rest

  lookup-push_cols :
      (j : String) (cols : List (String × List A)) (m : List (String × List A))
      → HasKeysApart cols
      → or_nil (lookup j (push_cols cols m)) ≡ or_nil (lookup j m) ++ or_nil (lookup j cols)
  unfolding push_cols lookup
  lookup-push_cols j [] m h = sym (append-nil (or_nil (lookup j m)))
  lookup-push_cols j ((k, col) ∷ cols) m h = elim (Bool-cases (str_eq k j)) [
    | inr e ↦
        ground
          (arith, e, lookup-push_cols j cols (extend_col k col m) h.1, lookup-extend_col j k col m)
    | inl e ↦ ground (
      arith,
      e,
      str_eq_iff k j,
      h.0,
      lookup-push_cols j cols (extend_col k col m) h.1,
      lookup-extend_col j k col m,
      append-nil (or_nil (lookup j m) ++ col),
    )
  ]

  pub lookup-push_pages :
      (j : String) (ps : List (List (String × List A))) (m : List (String × List A))
      → All (λ r. HasKeysApart r) ps
      → or_nil (lookup j (push_pages ps m)) ≡ or_nil (lookup j m) ++ columns j ps
  unfolding push_pages
  lookup-push_pages j [] m h = sym (append-nil (or_nil (lookup j m)))
  lookup-push_pages j (r ∷ rs) m h =
      lookup-push_pages j rs (push_cols r m) h.1
      ∙ rw (lookup-push_cols j r m h.0)
          (append_assoc (or_nil (lookup j m)) (or_nil (lookup j r)) (columns j rs))

  -- The row has a value under the key.
  abbrev pub has : String → List (String × A) → Bool
  has j r = elim (lookup j r) [ none ↦ false | some v ↦ true ]

  get_elem?-gather :
      (j : String) (i : ℕ) (r : List (String × A)) (rs : List (List (String × A)))
      → All (λ s. has j s ≡ true) rs
      → get_elem? rs i ≡ some r
      → get_elem? (gather j rs) i ≡ lookup j r
  get_elem?-gather j i r [] a h = absurd (ground (arith, h))
  get_elem?-gather j zero r (s ∷ rs) a h = ground (arith, h, a.0)
  get_elem?-gather j (suc i) r (s ∷ rs) a h =
      ground (arith, h, a.0, get_elem?-gather j i r rs a.1 h)

  gather_none :
      (j : String) (rs : List (List (String × A)))
      → All (λ s. has j s ≡ false) rs
      → gather j rs ≡ []
  gather_none j [] a = refl
  gather_none j (s ∷ rs) a = ground (arith, a.0, gather_none j rs a.1)

  -- Rows of the same keys, pushed into an empty store, are read back.
  pub row_of-push_rows :
      (j : String) (i : ℕ) (r : List (String × A)) (b : Bool) (rs : List (List (String × A)))
      → All (λ s. HasKeysApart s) rs
      → All (λ s. has j s ≡ b) rs
      → get_elem? rs i ≡ some r
      → lookup j (row_of i (push_rows rs [])) ≡ lookup j r
  unfolding lookup
  row_of-push_rows j i r true rs k a h =
      lookup-row_of j i (push_rows rs []) (push_rows-HasKeysApart rs [] tt)
      ∙ ap (λ c. get_elem? c i) (lookup-push_rows j rs [] k)
      ∙ get_elem?-gather j i r rs a h
  row_of-push_rows j i r false rs k a h =
      lookup-row_of j i (push_rows rs []) (push_rows-HasKeysApart rs [] tt)
      ∙ ap (λ c. get_elem? c i) (lookup-push_rows j rs [] k ∙ gather_none j rs a)
      ∙ ground (arith, get_elem?-All (λ s. has j s ≡ false) i r rs a h)
