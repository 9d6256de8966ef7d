-- ===== src/Engine/Assets/Drain.antt =====
-- A whole drain, of `pack_external_assets` of crates/bsrs/src/engine/run_engine.rs.
use bsrs.Prelude.{
  ℕ, ◌-◌, ◌≡◌, ◌⊎◌, inl, inr, true, not, ◌||◌, String, Option, none, some, List, [], ◌∷◌, arith,
  ◌==◌, all, length, All, Bool-cases,
}
use mathlib.Core.Path.{subst}
use bsrs.Prelude.Maps.{lookup}
use bsrs.Prelude.Rows.{Pairwise}
use bsrs.Runs.Documents.{Payload}
use bsrs.Engine.Assets.{
  AssetDoc, resource_doc, datum_doc, other_doc, Pack, Packed, packed, failed, contains, pack_doc,
  put_doc, and_then, pack_docs, is_nil, check_keys, pack_external_assets,
}
use bsrs.Engine.Assets.Stamped.{
  StampedAs, Serves, Some, IsNoDatum, Moved, Good, GoodAll, Good-pack_doc,
}

module _ (P : Payload) (D : Type 0) where
  abbrev Doc : Type 0
  Doc = AssetDoc P D

  Serves-grows :
      (r r' : List (String × String)) (k : String) (d : Doc)
      → ((i j : String) → lookup i r ≡ some j → lookup i r' ≡ some j)
      → Serves r k d
      → Serves r' k d
  Serves-grows r r' k (datum_doc d) g h = g d.stream_resource k h
  Serves-grows r r' k (resource_doc d) g h = h
  Serves-grows r r' k (other_doc d) g h = h

  -- The width of a datum stays.
  StampedAs-width :
      (run : String) (n : ℕ) (u v : Option ℕ) (d o : Doc)
      → ((w : ℕ) → u ≡ some w → v ≡ some w)
      → StampedAs run n u d o
      → StampedAs run n v d o
  StampedAs-width run n u v (datum_doc d) o k h = (k (d.indices.stop - d.indices.start) h.0, h.1)
  StampedAs-width run n u v (resource_doc r) o k h = h
  StampedAs-width run n u v (other_doc d) o k h = h

  first_served :
      (r r' : List (String × String)) (k : String) (d : Doc) (ds : List Doc)
      → ((i j : String) → lookup i r ≡ some j → lookup i r' ≡ some j)
      → Some (Serves r k) (d ∷ [])
      → Some (Serves r' k) (d ∷ ds)
  first_served r r' k d ds g (inl h) = inl (Serves-grows r r' k d g h)
  first_served r r' k d ds g (inr h) = absurd h

  -- One document, then the others.
  Moved-cons :
      (run : String) (n : ℕ) (s t u : Pack) (i d : Doc) (is ds : List Doc)
      → Moved run n s t (i ∷ []) (d ∷ [])
      → Moved run n t u is ds
      → Moved run n s u (i ∷ is) (d ∷ ds)
  Moved-cons run n s t u i d is ds a b = record {
    stamped = (StampedAs-width run n t.width u.width i d b.width_kept a.stamped.0, b.stamped);
    width_kept = λ w h. b.width_kept w (a.width_kept w h);
    grows = λ j k h. b.grows j k (a.grows j k h);
    received_by = λ k h. elim (b.received_by k h) [
      | inr c ↦ inr (inr c)
      | inl c ↦ elim (a.received_by k c) [
        | inl e ↦ inl e
        | inr e ↦ inr (first_served t.registry u.registry k d ds b.grows e)
      ]
    ];
    silent = λ h. let (c, e) = b.silent h in let (f, g) = a.silent c in (f, (g.0, e));
  }

  GoodAll-put :
      (run : String) (n : ℕ) (ext : List String) (s t : Pack) (i d : Doc) (is : List Doc)
      (q : Packed (List Doc))
      → Moved run n s t (i ∷ []) (d ∷ [])
      → GoodAll run n t is q
      → GoodAll run n s (i ∷ is) (put_doc run n ext d q)
  GoodAll-put run n ext s t i d is (failed r e) a b = tt
  GoodAll-put run n ext s t i d is (packed ds u) a b = Moved-cons run n s t u i d is ds a b

  GoodAll-then :
      (run : String) (n : ℕ) (ext : List String) (s : Pack) (i : Doc) (is : List Doc)
      (p : Packed Doc) (go : Pack → Packed (List Doc))
      → Good run n s i p
      → ((t : Pack) → GoodAll run n t is (go t))
      → GoodAll run n s (i ∷ is) (and_then run n ext p go)
  GoodAll-then run n ext s i is (failed r e) go a b = tt
  GoodAll-then run n ext s i is (packed d t) go a b =
      GoodAll-put run n ext s t i d is (go t) a (b t)

  GoodAll-pack_docs :
      (run : String) (n : ℕ) (ext : List String) (ds : List Doc) (s : Pack)
      → GoodAll run n s ds (pack_docs run n ext ds s)
  unfolding pack_docs
  GoodAll-pack_docs run n ext [] s = record {
    stamped = tt;
    width_kept = λ w h. h;
    grows = λ j k h. h;
    received_by = λ k h. inl h;
    silent = λ h. (h, tt);
  }
  GoodAll-pack_docs run n ext (d ∷ ds) s =
      GoodAll-then run n ext s d ds (pack_doc run n ext d s) (pack_docs run n ext ds)
        (Good-pack_doc P D run n ext d s) (GoodAll-pack_docs run n ext ds)

  -- A drain that is accepted.
  abbrev IsDrained : String → ℕ → List String → List Doc → Packed (List Doc) → Type 0
  IsDrained run n ext docs (failed r e) = Unit
  IsDrained run n ext docs (packed ds s) =
      Pairwise (StampedAs run n s.width) docs ds
      × (All IsNoDatum ds ⊎ All (λ k. Some (Serves s.registry k) ds) ext)

  served :
      (run : String) (n : ℕ) (reg : List (String × String)) (s : Pack) (docs ds : List Doc)
      (ks : List String)
      → Moved run n (record { width = none; received = []; registry = reg }) s docs ds
      → all (contains s.received) ks ≡ true
      → All (λ k. Some (Serves s.registry k) ds) ks
  served run n reg s docs ds [] m h = tt
  served run n reg s docs ds (k ∷ ks) m h = (
    elim (m.received_by k (ground (arith, h))) [ inl c ↦ absurd (ground (arith, c)) | inr c ↦ c ],
    served run n reg s docs ds ks m (ground (arith, h)),
  )

  IsDrained-check_keys :
      (run : String) (n : ℕ) (ext : List String) (reg : List (String × String)) (docs : List Doc)
      (q : Packed (List Doc))
      → GoodAll run n (record { width = none; received = []; registry = reg }) docs q
      → IsDrained run n ext docs (check_keys run n ext q)
  IsDrained-check_keys run n ext reg docs (failed r e) m = tt
  IsDrained-check_keys run n ext reg docs (packed ds s) m = elim (Bool-cases (is_nil s.received)) [
    | inl e ↦ simp e (m.stamped, inl (m.silent e).1)
    | inr e ↦
        elim (Bool-cases
          (not (length ext == length s.received) || not (all (contains s.received) ext))) [
            | inl f ↦ simp (e, f) tt
            | inr f ↦
                simp (e, f) (m.stamped, inr (served run n reg s docs ds ext m (ground (arith, f))))
          ]
  ]

  -- What the engine emits of a drain that it accepts is the drain, document by document: a resource
  -- that names no run is given this run, and keeps its own otherwise; every datum is given as many
  -- sequence numbers as it has indices, from `next_seq` on (of 64 bits), and this is one and the same
  -- width for all datums; all else is as it was. And either there is no datum, or every external key
  -- of the descriptor has one, through the registry of resources.
  pub pack_external_assets-drain :
      (run : String) (next_seq : ℕ) (external : List String) (docs ds : List Doc)
      (registry : List (String × String)) (s : Pack)
      → pack_external_assets run next_seq external docs registry ≡ packed ds s
      → Pairwise (StampedAs run next_seq s.width) docs ds
        × (All IsNoDatum ds ⊎ All (λ k. Some (Serves s.registry k) ds) external)
  unfolding pack_external_assets
  pack_external_assets-drain run n ext docs ds reg s h = subst (IsDrained run n ext docs) h (
      IsDrained-check_keys run n ext reg docs
        (pack_docs run n ext docs (record { width = none; received = []; registry = reg }))
        (GoodAll-pack_docs run n ext docs (record { width = none; received = []; registry = reg })))
