-- ===== src/Runs/Bundler/Reads.antt =====
-- The readings of an open bundle (`add_read`, crates/bsrs/src/engine/bundler.rs).
use bsrs.Prelude.{
  ◌≡◌, refl, inl, inr, true, String, Option, none, some, [], ◌∷◌, ◌++◌, arith, str_eq, str_eq_iff,
  str_eq_refl, find, Option-cases, Bool-cases,
}
use bsrs.Prelude.Maps.{lookup, insert, keys, lookup-insert, HasKeysApart}
use bsrs.Runs.Documents.{Payload, Fields, ReadingValue}
use bsrs.Runs.Bundler.{
  RunBundler, StreamObject, OpenBundle, Result, ok, err, collide, extend, has_key, add_read,
}

-- The first if it is there, or the second.
abbrev pub or_else : {A : Type 0} → Option A → Option A → Option A
or_else none o = o
or_else (some a) o = some a

module _ {A : Type 0} where
  lookup-extend_other :
      (j : String) (m xs : Fields A) → lookup j xs ≡ none → lookup j (extend m xs) ≡ lookup j m
  unfolding extend lookup
  lookup-extend_other j m [] h = refl
  lookup-extend_other j m ((k, v) ∷ xs) h =
      ground (arith, h, lookup-insert k j v m, lookup-extend_other j (insert k v m) xs)

  lookup-extend_new :
      (j : String) (v : A) (m xs : Fields A)
      → HasKeysApart xs
      → lookup j xs ≡ some v
      → lookup j (extend m xs) ≡ some v
  unfolding extend lookup
  lookup-extend_new j v m [] p h = ground (arith, h)
  lookup-extend_new j v m ((k, w) ∷ xs) p h = elim (Bool-cases (str_eq k j)) [
    | inl e ↦ ground (
      arith,
      e,
      h,
      str_eq_iff k j,
      p.0,
      lookup-insert k j w m,
      lookup-extend_other k (insert k w m) xs p.0,
    )
    | inr e ↦ ground (arith, e, h, lookup-extend_new j v (insert k w m) xs p.1)
  ]

  -- No key collides.
  find_key-none :
      (m xs : Fields A)
      → find (has_key m) (keys xs) ≡ none
      → (j : String) (v : A) → lookup j xs ≡ some v
      → lookup j m ≡ none
  unfolding lookup
  find_key-none m [] h j v e = absurd (ground (arith, e))
  find_key-none m ((k, w) ∷ xs) h j v e = elim (Option-cases (lookup k m)) [
    | inr (u, f) ↦ absurd (ground (arith, f, h))
    | inl f ↦ elim (Bool-cases (str_eq k j)) [
      | inl eq ↦ ground (arith, f, eq, str_eq_iff k j)
      | inr ne ↦ find_key-none m xs (ground (arith, f, h)) j v (ground (arith, ne, e))
    ]
  ]

  -- A colliding key.
  find_key-some :
      (m xs : Fields A) (k : String)
      → find (has_key m) (keys xs) ≡ some k
      → (has_key m k ≡ true) × (has_key xs k ≡ true)
  unfolding lookup
  find_key-some m [] k h = absurd (ground (arith, h))
  find_key-some m ((j, w) ∷ xs) k h = elim (Option-cases (lookup j m)) [
    | inr (u, f) ↦ ground (arith, f, h, str_eq_refl j)
    | inl f ↦ ground (arith, f, find_key-some m xs k (ground (arith, f, h)))
  ]

module _ {P : Payload} where
  -- The bundle with one more object: its readings are those before and the new ones, and neither
  -- covers the other.
  abbrev pub AddsAll :
      OpenBundle P → StreamObject P → Fields (ReadingValue P) → Option (OpenBundle P) → Type 0
  AddsAll b obj readings none = ⊥
  AddsAll b obj readings (some b') =
      (b'.stream_name ≡ b.stream_name)
      × (b'.objs ≡ b.objs ++ obj ∷ [])
      × ((j : String) → lookup j b'.readings ≡ or_else (lookup j b.readings) (lookup j readings))
      × ((j : String) → lookup j b'.readings ≡ or_else (lookup j readings) (lookup j b.readings))

  -- The error names a field of both, and nothing changes; or everything is kept.
  abbrev pub ReadOutcome :
      RunBundler P
      → OpenBundle P
      → StreamObject P
      → Fields (ReadingValue P)
      → RunBundler P × Result Unit
      → Type 0
  ReadOutcome r b obj readings (r', ok x) =
      AddsAll b obj readings r'.open_bundle × (r' ≡ record r { open_bundle = r'.open_bundle })
  ReadOutcome r b obj readings (r', err (collide k)) =
      (r' ≡ r) × (has_key b.readings k ≡ true) × (has_key readings k ≡ true)
  ReadOutcome r b obj readings (r', err _) = ⊥

  outcome_of_eq :
      (r : RunBundler P) (b : OpenBundle P) (obj : StreamObject P)
      (readings : Fields (ReadingValue P)) (x x' : RunBundler P × Result Unit)
      → x ≡ x'
      → ReadOutcome r b obj readings x'
      → ReadOutcome r b obj readings x
  outcome_of_eq r b obj readings x x' e h = rw e h

  -- A read into an open bundle, of an object whose readings have different names: either a name is
  -- already read in the bundle, which the error reports and nothing changes, or the bundle gains
  -- the object and holds every reading that it held and every one of the object's.
  pub add_read-outcome :
      (r : RunBundler P) (b : OpenBundle P) (obj : StreamObject P)
      (readings : Fields (ReadingValue P))
      → r.open_bundle ≡ some b
      → HasKeysApart readings
      → ReadOutcome r b obj readings (add_read r obj readings)
  unfolding add_read
  add_read-outcome r b obj readings o p =
      elim (Option-cases (find (has_key b.readings) (keys readings))) [
        | inr (k, f) ↦
            outcome_of_eq r b obj readings _ (r, err (collide k)) (ground (arith, o, f))
              (let (x, y) = find_key-some b.readings readings k f in (refl, x, y))
        | inl f ↦
            outcome_of_eq r b obj readings _
              (
                record r {
                  open_bundle = some (record b {
                    readings = extend b.readings readings;
                    objs = b.objs ++ obj ∷ [];
                  });
                },
                ok tt,
              )
              (ground (arith, o, f)) ((refl, refl, λ j. both j f, λ j. new_first j), refl)
      ]
    where
      new_first :
          (j : String)
          → lookup j (extend b.readings readings)
            ≡ or_else (lookup j readings) (lookup j b.readings)
      new_first j = elim (Option-cases (lookup j readings)) [
        | inl n ↦ ground (arith, n, lookup-extend_other j b.readings readings n)
        | inr (w, n) ↦ ground (arith, n, lookup-extend_new j w b.readings readings p n)
      ]

      both :
          (j : String)
          → find (has_key b.readings) (keys readings) ≡ none
          → lookup j (extend b.readings readings)
            ≡ or_else (lookup j b.readings) (lookup j readings)
      both j f = elim (Option-cases (lookup j readings)) [
        | inl n ↦ ground (
          arith,
          n,
          lookup-extend_other j b.readings readings n,
          Option-cases (lookup j b.readings),
        )
        | inr (w, n) ↦ ground (
          arith,
          n,
          lookup-extend_new j w b.readings readings p n,
          find_key-none b.readings readings f j w n,
        )
      ]
