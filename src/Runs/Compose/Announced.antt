-- ===== src/Runs/Compose/Announced.antt =====
-- The descriptors that the events of a run refer to (crates/bsrs/src/event_model/compose.rs).
use bsrs.Prelude.{
  ◌≡◌, refl, ◌⊎◌, inl, inr, Bool, true, false, ◌||◌, String, Option, none, some, List, [], ◌∷◌,
  ◌++◌, arith, if◌then◌else◌, str_eq, str_eq_refl, All, Option-cases, Bool-cases,
}
use bsrs.Prelude.Maps.{lookup, over, lookup-insert, lookup-modify}
use bsrs.Runs.Documents.{Payload, EventDescriptor, Event, EventPage}
use bsrs.Runs.Compose.{
  RunBundle, open_run, descriptor, install_descriptor, bump_seq, event, event_page, advance_seq,
  wrapping_add,
}
use bsrs.Runs.Compose.Sequences.{Step, describe, reconfigure, emit, emit_page, advance, step}

unfoldable pub has : String → List String → Bool
has u [] = false
has u (x ∷ xs) = str_eq x u || has u xs

has-later : (u : String) (xs ys : List String) → has u ys ≡ true → has u (xs ++ ys) ≡ true
unfolding has
has-later u [] ys h = h
has-later u (x ∷ xs) ys h = ground (arith, has-later u xs ys h)

-- The uid, if any, is one of those seen.
abbrev IsSeen : List String → Option String → Type 0
IsSeen seen none = Unit
IsSeen seen (some u) = has u seen ≡ true

IsSeen-later : (o : Option String) (xs ys : List String) → IsSeen ys o → IsSeen (xs ++ ys) o
IsSeen-later none xs ys h = tt
IsSeen-later (some u) xs ys h = has-later u xs ys h

IsSeen-of_eq : (seen : List String) (o o' : Option String) → o ≡ o' → IsSeen seen o' → IsSeen seen o
IsSeen-of_eq seen o o' e h = rw e h

abbrev to_list : Option String → List String
to_list none = []
to_list (some u) = u ∷ []

IsSeen-to_list :
    (seen : List String) (o : Option String)
    → IsSeen seen o
    → All (λ u. has u seen ≡ true) (to_list o)
IsSeen-to_list seen none h = tt
IsSeen-to_list seen (some u) h = (h, tt)

module _ {P : Payload} where
  -- The uid of the descriptor that a step introduces: of a new stream, as `descriptor` returns it, or
  -- of the new generation that `install_descriptor` is given.
  unfoldable pub introduces : RunBundle P → Step P → List String
  introduces b (describe uid time name ks cs hs os) =
      let (b', (d, is_new)) = descriptor uid time b name ks cs hs os in
      if is_new then d.uid ∷ [] else []
  introduces b (reconfigure name d) = d.uid ∷ []
  introduces b _ = []

  abbrev event_ref : Option (Event P) → List String
  event_ref none = []
  event_ref (some e) = e.descriptor ∷ []

  abbrev page_ref : Option (EventPage P) → List String
  page_ref none = []
  page_ref (some p) = p.descriptor ∷ []

  -- The uid that the step's document refers to.
  unfoldable pub refers : RunBundle P → Step P → List String
  refers b (emit uid time name vs ts) = event_ref (event uid time b name vs ts).1
  refers b (emit_page uids time name vs ts n) = page_ref (event_page uids time b name vs ts n).1
  refers b _ = []

  -- Each document refers to a descriptor that was introduced before it.
  abbrev pub AllSeen : List String → RunBundle P → List (Step P) → Type 0
  AllSeen seen b [] = Unit
  AllSeen seen b (t ∷ steps) =
      All (λ u. has u seen ≡ true) (refers b t) × AllSeen (introduces b t ++ seen) (step b t) steps

  abbrev pub uid_of : String → RunBundle P → Option String
  uid_of s b = over (λ st. st.descriptor.uid) (lookup s b.streams)

  -- A step leaves a stream with its descriptor, or with the one that the step introduces.
  pub step-uid_of :
      (s : String) (b : RunBundle P) (t : Step P)
      → (uid_of s (step b t) ≡ uid_of s b)
        ⊎ ((u : String) × (uid_of s (step b t) ≡ some u) × (introduces b t ≡ u ∷ []))
  unfolding step introduces descriptor install_descriptor event event_page advance_seq bump_seq
  step-uid_of s b (describe uid time name ks cs hs os) =
      elim (Option-cases (lookup name b.streams)) [
        | inr (st, e) ↦ inl (ground (arith, e))
        | inl e ↦
            let d : EventDescriptor P = record {
              uid = uid;
              run_start = b.start_uid;
              time = time;
              data_keys = ks;
              configuration = cs;
              name = some name;
              hints = hs;
              object_keys = os;
            } in
            let l = lookup-insert name s (record { descriptor = d; seq_num = 0 }) b.streams in
            elim (Bool-cases (str_eq name s)) [
              | inl eq ↦ inr (uid, ground (arith, e, eq, l), ground (arith, e))
              | inr ne ↦ inl (ground (arith, e, ne, l))
            ]
      ]
  step-uid_of s b (reconfigure name d) =
      let l = lookup-modify name s (λ st. record st { descriptor = d }) b.streams in
      elim (Bool-cases (str_eq name s)) [
        | inr ne ↦ inl (ground (arith, ne, l))
        | inl eq ↦ elim (Option-cases (lookup s b.streams)) [
          | inl e ↦ inl (ground (arith, e, eq, l))
          | inr (st, e) ↦ inr (d.uid, ground (arith, e, eq, l), refl)
        ]
      ]
  step-uid_of s b (emit uid time name vs ts) = inl (
      ground (
        arith,
        Option-cases (lookup name b.streams),
        Option-cases (lookup s b.streams),
        lookup-modify name s (λ st. record st { seq_num = wrapping_add st.seq_num 1 }) b.streams,
      ))
  step-uid_of s b (emit_page uids time name vs ts n) = inl (
      ground (
        arith,
        Option-cases (lookup name b.streams),
        Option-cases (lookup s b.streams),
        lookup-modify name s (λ st. record st { seq_num = wrapping_add st.seq_num n }) b.streams,
      ))
  step-uid_of s b (advance name n) = inl (
      ground (
        arith,
        Option-cases (lookup name b.streams),
        Option-cases (lookup s b.streams),
        lookup-modify name s (λ st. record st { seq_num = wrapping_add st.seq_num n }) b.streams,
      ))

  step-IsSeen :
      (s : String) (seen : List String) (b : RunBundle P) (t : Step P)
      → IsSeen seen (uid_of s b)
      → IsSeen (introduces b t ++ seen) (uid_of s (step b t))
  unfolding has
  step-IsSeen s seen b t h = elim (step-uid_of s b t) [
    | inl e ↦ IsSeen-of_eq _ _ _ e (IsSeen-later (uid_of s b) (introduces b t) seen h)
    | inr (u, e, a) ↦ IsSeen-of_eq _ _ _ e (ground (arith, a, str_eq_refl u))
  ]

  -- What a step refers to: the current descriptor of its stream, or nothing.
  refers-to_list :
      (b : RunBundle P) (t : Step P)
      → (refers b t ≡ []) ⊎ ((name : String) × (refers b t ≡ to_list (uid_of name b)))
  unfolding refers event event_page
  refers-to_list b (describe uid time name ks cs hs os) = inl refl
  refers-to_list b (reconfigure name d) = inl refl
  refers-to_list b (emit uid time name vs ts) =
      inr (name, ground (arith, Option-cases (lookup name b.streams)))
  refers-to_list b (emit_page uids time name vs ts n) =
      inr (name, ground (arith, Option-cases (lookup name b.streams)))
  refers-to_list b (advance name n) = inl refl

  refers-IsSeen :
      (seen : List String) (b : RunBundle P) (t : Step P)
      → ((s : String) → IsSeen seen (uid_of s b))
      → All (λ u. has u seen ≡ true) (refers b t)
  refers-IsSeen seen b t h = elim (refers-to_list b t) [
    | inl e ↦ rw e tt
    | inr (name, e) ↦ rw e (IsSeen-to_list seen (uid_of name b) (h name))
  ]

  run-AllSeen :
      (seen : List String) (b : RunBundle P) (steps : List (Step P))
      → ((s : String) → IsSeen seen (uid_of s b))
      → AllSeen seen b steps
  run-AllSeen seen b [] h = tt
  run-AllSeen seen b (t ∷ steps) h = (
    refers-IsSeen seen b t h,
    run-AllSeen (introduces b t ++ seen) (step b t) steps (λ s. step-IsSeen s seen b t (h s)),
  )

  -- In a run, every event and event page refers to a descriptor that an earlier step introduced: one
  -- that `descriptor` returned as new, or one that was handed to `install_descriptor`. When a
  -- descriptor is broadcast is up to the caller, and not part of this.
  pub run-descriptors_first :
      (start_uid : String) (steps : List (Step P)) → AllSeen [] (open_run start_uid) steps
  unfolding open_run lookup
  run-descriptors_first start_uid steps = run-AllSeen [] (open_run start_uid) steps (λ s. tt)
