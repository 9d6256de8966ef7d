-- ===== src/Engine/Assets/Stamped.antt =====
-- What a packed drain looks like, of crates/bsrs/src/engine/run_engine.rs.
use bsrs.Prelude.{
  ℕ, ◌+◌, ◌-◌, ◌%◌, ◌≡◌, refl, ap, ◌∙◌, ◌⊎◌, inl, inr, true, not, ◌||◌, String, Option, none, some,
  List, [], ◌∷◌, ◌++◌, arith, ◌==◌, str_eq, str_eq_iff, All, Bool-cases, Option-cases, ==_iff,
}
use bsrs.Prelude.Maps.{lookup, lookup-insert}
use bsrs.Prelude.Rows.{Pairwise}
use bsrs.Runs.Documents.{Payload, StreamResource, StreamDatum}
use bsrs.Engine.Assets.{
  AssetDoc, resource_doc, datum_doc, other_doc, Pack, Packed, packed, failed, u64_mod, contains,
  add_key, or_run, same_width, pack_resource, stamp, pack_datum, pack_doc, is_nil,
}

same_width-eq : (o : Option ℕ) (v w : ℕ) → o ≡ some v → same_width o w ≡ true → some w ≡ some v
same_width-eq none v w h g = absurd (ground (arith, h))
same_width-eq (some u) v w h g = ground (arith, h, g, ==_iff u w)

contains-append :
    (ks : List String) (k j : String)
    → contains (ks ++ k ∷ []) j ≡ true
    → (contains ks j ≡ true) ⊎ (k ≡ j)
contains-append [] k j h = ground (arith, h, str_eq_iff k j)
contains-append (i ∷ ks) k j h = elim (Bool-cases (str_eq i j)) [
  | inl e ↦ inl (rw e refl)
  | inr e ↦ rw e (contains-append ks k j (rw e at h))
]

contains-add_key :
    (ks : List String) (k j : String)
    → contains (add_key ks k) j ≡ true
    → (contains ks j ≡ true) ⊎ (k ≡ j)
contains-add_key ks k j h = elim (Bool-cases (contains ks k)) [
  | inl e ↦ inl (rw e at h)
  | inr e ↦ contains-append ks k j (rw e at h)
]

add_key-nonempty : (ks : List String) (k : String) → is_nil (add_key ks k) ≡ true → ⊥
add_key-nonempty [] k h = ground (arith, h)
add_key-nonempty (i ∷ ks) k h = elim (Bool-cases (contains (i ∷ ks) k)) [
  | inl e ↦ ground (arith, h, e)
  | inr e ↦ ground (arith, h, e)
]

module _ {P : Payload} {D : Type 0} where
  -- A document and what is emitted for it: a resource that names no run is given `run`, a datum is
  -- given w numbers, from `next_seq` on, for its w indices, and nothing else changes.
  abbrev pub StampedAs : String → ℕ → Option ℕ → AssetDoc P D → AssetDoc P D → Type 0
  StampedAs run next_seq w (resource_doc r) out =
      ((r.run_start ≡ none) × (out ≡ resource_doc (record r { run_start = some run })))
      ⊎ ((own : String) × (r.run_start ≡ some own) × (out ≡ resource_doc r))
  StampedAs run next_seq w (datum_doc d) out =
      (w ≡ some (d.indices.stop - d.indices.start))
      × (out
          ≡ datum_doc (record d {
            seq_nums = record {
              start = next_seq;
              stop = (next_seq + (d.indices.stop - d.indices.start)) % u64_mod;
            };
          }))
  StampedAs run next_seq w (other_doc d) out = out ≡ other_doc d

  -- A datum of a resource that the registry has under the key k.
  abbrev pub Serves : List (String × String) → String → AssetDoc P D → Type 0
  Serves registry k (datum_doc d) = lookup d.stream_resource registry ≡ some k
  Serves registry k (resource_doc r) = ⊥
  Serves registry k (other_doc d) = ⊥

  abbrev pub Some : (AssetDoc P D → Type 0) → List (AssetDoc P D) → Type 0
  Some Q [] = ⊥
  Some Q (d ∷ ds) = Q d ⊎ Some Q ds

  -- Not a datum.
  abbrev pub IsNoDatum : AssetDoc P D → Type 0
  IsNoDatum (datum_doc d) = ⊥
  IsNoDatum (resource_doc r) = Unit
  IsNoDatum (other_doc d) = Unit

  -- What the packing of documents adds to s: the state s' and the documents ds.
  pub record Moved (run : String) (next_seq : ℕ) (s s' : Pack) (docs ds : List (AssetDoc P D))
      : Type 0 where
    pub stamped : Pairwise (StampedAs run next_seq s'.width) docs ds
    pub width_kept : (w : ℕ) → s.width ≡ some w → s'.width ≡ some w
    pub grows : (j k : String) → lookup j s.registry ≡ some k → lookup j s'.registry ≡ some k
    pub received_by :
        (k : String)
        → contains s'.received k ≡ true
        → (contains s.received k ≡ true) ⊎ Some (Serves s'.registry k) ds
    pub silent : is_nil s'.received ≡ true → (is_nil s.received ≡ true) × All IsNoDatum ds

  abbrev pub Good : String → ℕ → Pack → AssetDoc P D → Packed (AssetDoc P D) → Type 0
  Good run next_seq s doc (failed r e) = Unit
  Good run next_seq s doc (packed d s') = Moved run next_seq s s' (doc ∷ []) (d ∷ [])

  abbrev pub GoodAll :
      String → ℕ → Pack → List (AssetDoc P D) → Packed (List (AssetDoc P D)) → Type 0
  GoodAll run next_seq s docs (failed r e) = Unit
  GoodAll run next_seq s docs (packed ds s') = Moved run next_seq s s' docs ds

module _ (P : Payload) (D : Type 0) where
  names_run :
      (run : String) (next_seq : ℕ) (w : Option ℕ) (r : StreamResource P) (o : Option String)
      → r.run_start ≡ o
      → StampedAs {P = P} {D = D} run next_seq w
          (resource_doc r)
          (resource_doc (record r { run_start = or_run run o }))
  names_run run n w r none e = inl (e, refl)
  names_run run n w r (some own) e = inr (own, e, rw (← e) refl)

  Good-pack_resource :
      (run : String) (next_seq : ℕ) (external : List String) (r : StreamResource P) (s : Pack)
      → Good run next_seq s
          (resource_doc r)
          (pack_resource {P = P} {D = D} run next_seq external r s)
  unfolding pack_resource
  Good-pack_resource run n ext r s = elim (Option-cases (lookup r.uid s.registry)) [
    | inr (k, e) ↦ rw e tt
    | inl e ↦ elim (Bool-cases (contains ext r.data_key)) [
      | inr f ↦ rw e (rw f tt)
      | inl f ↦ rw e (
          rw f record {
            stamped = (names_run run n s.width r r.run_start refl, tt);
            width_kept = λ w h. h;
            grows = λ j k h.
                ground
                  (arith, h, e, str_eq_iff r.uid j, lookup-insert r.uid j r.data_key s.registry);
            received_by = λ k h. inl h;
            silent = λ h. (h, (tt, tt));
          })
    ]
  ]

  by_key :
      (received : List String) (k j : String) (d : StreamDatum) (reg : List (String × String))
      → lookup d.stream_resource reg ≡ some k
      → (contains received j ≡ true) ⊎ (k ≡ j)
      → (contains received j ≡ true) ⊎ Some (Serves {P = P} {D = D} reg j) (datum_doc d ∷ [])
  by_key received k j d reg f (inl h) = inl h
  by_key received k j d reg f (inr e) = inr (inl (f ∙ ap some e))

  Good-pack_datum :
      (run : String) (next_seq : ℕ) (external : List String) (d : StreamDatum) (s : Pack)
      → Good run next_seq s (datum_doc d) (pack_datum {P = P} {D = D} run next_seq external d s)
  unfolding pack_datum
  Good-pack_datum run n ext d s =
      let w = d.indices.stop - d.indices.start in
      elim (Bool-cases (not (d.seq_nums.start == 0) || not (d.seq_nums.stop == 0))) [
        | inl e ↦ rw e tt
        | inr e ↦ elim (Option-cases (lookup d.stream_resource s.registry)) [
          | inl f ↦ rw e (rw f tt)
          | inr (k, f) ↦ elim (Bool-cases (same_width s.width w)) [
            | inr g ↦ rw e (rw f (rw g tt))
            | inl g ↦ rw e (
                rw f (
                  rw g record {
                    stamped = ((refl, refl), tt);
                    width_kept = λ v h. same_width-eq s.width v w h g;
                    grows = λ j i h. h;
                    received_by = λ j h.
                        by_key s.received k j (stamp n d w) s.registry f
                          (contains-add_key s.received k j h);
                    silent = λ h. absurd (add_key-nonempty s.received k h);
                  }))
          ]
        ]
      ]

  pub Good-pack_doc :
      (run : String) (next_seq : ℕ) (external : List String) (d : AssetDoc P D) (s : Pack)
      → Good run next_seq s d (pack_doc {P = P} {D = D} run next_seq external d s)
  unfolding pack_doc
  Good-pack_doc run n ext (resource_doc r) s = Good-pack_resource run n ext r s
  Good-pack_doc run n ext (datum_doc d) s = Good-pack_datum run n ext d s
  Good-pack_doc run n ext (other_doc d) s = record {
    stamped = (refl, tt);
    width_kept = λ w h. h;
    grows = λ j k h. h;
    received_by = λ k h. inl h;
    silent = λ h. (h, (tt, tt));
  }
