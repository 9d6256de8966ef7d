-- ===== src/Runs/Bundler/Saved.antt =====
-- The documents of `save` (crates/bsrs/src/engine/bundler.rs).
use bsrs.Prelude.{
  ℕ, ◌≡◌, refl, ap, ◌∙◌, inl, inr, Bool, true, false, String, Option, none, some, List, [], ◌∷◌,
  ◌++◌, map, arith, if◌then◌else◌, str_eq, str_eq_iff, str_eq_refl, Option-cases, Bool-cases,
}
use bsrs.Prelude.Maps.{lookup, lookup-insert, lookup-modify}
use bsrs.Runs.Documents.{
  Payload, Fields, DataKey, Configuration, PerObjectHint, EventDescriptor, Event, ReadingValue,
  Document, descriptor_doc, event_doc,
}
use bsrs.Runs.Compose
use bsrs.Runs.Compose.{RunBundle, StreamState, bump_seq, wrapping_add}
use bsrs.Runs.Compose.Sequences.{counter}
use bsrs.Runs.Compose.Announced.{uid_of}
use bsrs.Runs.Bundler.{RunBundler, StreamObject, OpenBundle, Result, ok, err, extend}
use bsrs.Runs.Bundler.Save.{
  prepare_stream, emit_event, save_bundle, save, needs_descriptor, shape_of, empty_shape,
  some_hints,
}

module _ {P : Payload} where
  -- Each uid that the bundler caches is that of the stream's current descriptor.
  abbrev pub Synced : RunBundler P → Type 0
  Synced r = (s u : String) → lookup s r.descriptors ≡ some u → uid_of s r.bundle ≡ some u

  uid_of-bump_seq :
      (s name : String) (b : RunBundle P) (k : ℕ) → uid_of s (bump_seq b name k) ≡ uid_of s b
  unfolding bump_seq
  uid_of-bump_seq s name b k = ground (
    arith,
    lookup-modify name s (λ st. record st { seq_num = wrapping_add st.seq_num k }) b.streams,
    Option-cases (lookup s b.streams),
  )

  -- A declaration leaves the other streams, and gives the stream the descriptor it returns.
  uid_of-descriptor :
      (s uid : String) (time : P.Float) (b : RunBundle P) (name : String) (ks : Fields (DataKey P))
      (cs : Fields (Configuration P)) (hs : Option (Fields PerObjectHint))
      (os : Fields (List String))
      → let (b', (d, is_new)) = Compose.descriptor uid time b name ks cs hs os in
        (uid_of s b' ≡ (if str_eq name s then some d.uid else uid_of s b))
        × (counter s b' ≡ counter s b)
  unfolding Compose.descriptor
  uid_of-descriptor s uid time b name ks cs hs os = elim (Option-cases (lookup name b.streams)) [
    | inr (st, e) ↦ (ground (arith, e, str_eq_iff name s), ground (arith, e))
    | inl e ↦
        let d : EventDescriptor P = record {
          uid = uid;
          run_start = b.start_uid;
          time = time;
          data_keys = ks;
          configuration = cs;
          name = some name;
          hints = hs;
          object_keys = os;
        } in
        let l = lookup-insert name s (record { descriptor = d; seq_num = 0 }) b.streams in
        (ground (arith, e, l), ground (arith, e, l, str_eq_iff name s))
  ]

  -- What `prepare_stream` leaves behind.
  record Prepares (r : RunBundler P) (name : String) (r' : RunBundler P) (d : EventDescriptor P)
      : Type 0 where
    current : uid_of name r'.bundle ≡ some d.uid
    same_counter : counter name r'.bundle ≡ counter name r.bundle
    same_open : r'.open_bundle ≡ r.open_bundle
    synced : Synced r → Synced r'

  prepare_stream-Prepares :
      (uid : String) (time : P.Float) (r : RunBundler P) (name : String)
      (objs : List (StreamObject P))
      → let (r', d) = prepare_stream uid time r name objs in Prepares r name r' d
  unfolding prepare_stream
  prepare_stream-Prepares uid time r name objs =
      let s = shape_of empty_shape objs in
      let at = λ (n : String).
        uid_of-descriptor n uid time r.bundle name s.data_keys s.configuration (some_hints s.hints)
          s.object_keys in
      record {
        current = ground (arith, (at name).0, str_eq_refl name);
        same_counter = (at name).1;
        same_open = refl;
        synced = λ h n u e. ground (
          arith,
          e,
          str_eq_iff name n,
          (at n).0,
          h n u,
          lookup-insert name n
              (Compose.descriptor uid time r.bundle name s.data_keys s.configuration
                (some_hints s.hints) s.object_keys).1.0.uid
              r.descriptors,
        );
      }

  -- The document that `emit_event` adds, and the state that it leaves.
  abbrev pub EmitsEvent :
      RunBundler P → String → List (Document P) → RunBundler P × Result (List (Document P)) → Type 0
  EmitsEvent r name out (r', err e) = ⊥
  EmitsEvent r name out (r', ok docs) =
      (e : Event P) × (docs ≡ out ++ event_doc e ∷ [])
      × (uid_of name r.bundle ≡ some e.descriptor)
      × (uid_of name r'.bundle ≡ some e.descriptor)
      × (e.seq_num ≡ wrapping_add (counter name r.bundle) 1)
      × (r'.open_bundle ≡ r.open_bundle)
      × (Synced r → Synced r')

  emits_of_eq :
      (r : RunBundler P) (name : String) (out : List (Document P))
      (x x' : RunBundler P × Result (List (Document P)))
      → x ≡ x'
      → EmitsEvent r name out x'
      → EmitsEvent r name out x
  emits_of_eq r name out x x' e h = rw e h

  emit_event-EmitsEvent :
      (uid : String) (time : P.Float) (r : RunBundler P) (name : String)
      (readings : Fields (ReadingValue P)) (out : List (Document P)) (u : String)
      → uid_of name r.bundle ≡ some u
      → EmitsEvent r name out (emit_event uid time r name readings out)
  unfolding emit_event Compose.event
  emit_event-EmitsEvent uid time r name readings out u h =
      elim (Option-cases (lookup name r.bundle.streams)) [
        | inl e ↦ absurd (ground (arith, h, e))
        | inr (st, e) ↦
            let ev : Event P = record {
              uid = uid;
              descriptor = st.descriptor.uid;
              time = time;
              seq_num = wrapping_add st.seq_num 1;
              «data» = extend [] (map (λ e. (e.0, e.1.value)) readings);
              timestamps = extend [] (map (λ e. (e.0, e.1.timestamp)) readings);
              filled = [];
            } in
            emits_of_eq r name out (emit_event uid time r name readings out)
              (record r { bundle = bump_seq r.bundle name 1 }, ok (out ++ event_doc ev ∷ []))
              (ground (arith, e))
              (
                ev,
                refl,
                ground (arith, e),
                ground (arith, uid_of-bump_seq name name r.bundle 1, e),
                ground (arith, e),
                refl,
                λ s n v k. uid_of-bump_seq n name r.bundle 1 ∙ s n v k,
              )
      ]

  -- The documents before the event: the stream's first descriptor, where it has none yet.
  abbrev pub Front : Bool → List (Document P) → Event P → Type 0
  Front false [] e = Unit
  Front true (descriptor_doc d ∷ []) e = d.uid ≡ e.descriptor
  Front _ _ e = ⊥

  abbrev pub SavesEvent : RunBundler P → String → RunBundler P × Result (List (Document P)) → Type 0
  SavesEvent r name (r', err e) = ⊥
  SavesEvent r name (r', ok docs) =
      (front : List (Document P)) × (e : Event P) × (docs ≡ front ++ event_doc e ∷ [])
      × Front (needs_descriptor r name) front e
      × (uid_of name r'.bundle ≡ some e.descriptor)
      × (e.seq_num ≡ wrapping_add (counter name r.bundle) 1)
      × (r'.open_bundle ≡ none)
      × Synced r'

  saves_of_eq :
      (r : RunBundler P) (name : String) (x x' : RunBundler P × Result (List (Document P)))
      → x ≡ x'
      → SavesEvent r name x'
      → SavesEvent r name x
  saves_of_eq r name x x' e h = rw e h

  -- `save` of an open bundle, where the stream has no descriptor.
  save-first :
      (desc_uid event_uid : String) (time : P.Float) (r : RunBundler P) (b : OpenBundle P)
      (o : StreamObject P) (os : List (StreamObject P))
      → r.open_bundle ≡ some b
      → b.objs ≡ o ∷ os
      → needs_descriptor r b.stream_name ≡ true
      → save desc_uid event_uid time r ≡ (
          let (r', d) =
            prepare_stream desc_uid time (record r { open_bundle = none }) b.stream_name b.objs in
          emit_event event_uid time r' b.stream_name b.readings (descriptor_doc d ∷ []))
  unfolding save save_bundle needs_descriptor
  save-first desc_uid event_uid time r b o os e f n = ground (arith, e, f, n)

  save-next :
      (desc_uid event_uid : String) (time : P.Float) (r : RunBundler P) (b : OpenBundle P)
      (o : StreamObject P) (os : List (StreamObject P))
      → r.open_bundle ≡ some b
      → b.objs ≡ o ∷ os
      → needs_descriptor r b.stream_name ≡ false
      → save desc_uid event_uid time r
        ≡ emit_event event_uid time (record r { open_bundle = none }) b.stream_name b.readings []
  unfolding save save_bundle needs_descriptor
  save-next desc_uid event_uid time r b o os e f n = ground (arith, e, f, n)

  -- An event as a save's documents.
  saved_event :
      (r r' : RunBundler P) (name : String) (front : List (Document P))
      (x : RunBundler P × Result (List (Document P)))
      → EmitsEvent r' name front x
      → ((e : Event P)
          → uid_of name r'.bundle ≡ some e.descriptor
          → Front (needs_descriptor r name) front e)
      → counter name r'.bundle ≡ counter name r.bundle
      → r'.open_bundle ≡ none
      → Synced r'
      → SavesEvent r name x
  saved_event r r' name front (r'', err _) h f c p y = elim h [ ]
  saved_event r r' name front (r'', ok docs) (e, d, v, u, n, o, s) f c p y =
      (front, e, d, f e v, u, n ∙ ap (λ k. wrapping_add k 1) c, o ∙ p, s y)

  -- A stream that needs no descriptor has one in the cache.
  cached :
      (r : RunBundler P) (name : String)
      → needs_descriptor r name ≡ false
      → (u : String) × (lookup name r.descriptors ≡ some u)
  unfolding needs_descriptor
  cached r name n = elim (Option-cases (lookup name r.descriptors)) [
    | inl e ↦ absurd (ground (arith, e, n))
    | inr h ↦ h
  ]

  Front-of_eq :
      (x y : Bool) (front : List (Document P)) (e : Event P)
      → x ≡ y
      → Front y front e
      → Front x front e
  Front-of_eq x y front e h f = rw h f

  -- `save` of an open bundle with a read in it, where the bundler's cache agrees with the run's
  -- streams: it succeeds, its documents are one event, with the stream's descriptor in front of it
  -- exactly when the stream had none, the event refers to the stream's current descriptor, with the
  -- number after the stream's counter, the bundle is closed, and the cache still agrees.
  pub save-documents :
      (desc_uid event_uid : String) (time : P.Float) (r : RunBundler P) (b : OpenBundle P)
      (o : StreamObject P) (os : List (StreamObject P))
      → r.open_bundle ≡ some b
      → b.objs ≡ o ∷ os
      → Synced r
      → SavesEvent r b.stream_name (save desc_uid event_uid time r)
  save-documents desc_uid event_uid time r b o os e f s =
      elim (Bool-cases (needs_descriptor r b.stream_name)) [
        | inl n ↦
            let name = b.stream_name in
            let r0 : RunBundler P = record r { open_bundle = none } in
            let p = prepare_stream-Prepares desc_uid time r0 name b.objs in
            let (r', d) = prepare_stream desc_uid time r0 name b.objs in
            saves_of_eq r name _ _ (save-first desc_uid event_uid time r b o os e f n) (
              saved_event r r' name (descriptor_doc d ∷ [])
                (emit_event event_uid time r' name b.readings (descriptor_doc d ∷ []))
                (emit_event-EmitsEvent event_uid time r' name b.readings (descriptor_doc d ∷ [])
                  d.uid p.current)
                (λ ev u. Front-of_eq _ true _ ev n (ground (arith, u, p.current))) p.same_counter
                p.same_open (p.synced s))
        | inr n ↦
            let name = b.stream_name in
            let r0 : RunBundler P = record r { open_bundle = none } in
            let (u, k) = cached r name n in
            saves_of_eq r name _ _ (save-next desc_uid event_uid time r b o os e f n) (
              saved_event r r0 name [] (emit_event event_uid time r0 name b.readings [])
                (emit_event-EmitsEvent event_uid time r0 name b.readings [] u (s name u k))
                (λ ev _. Front-of_eq _ false _ ev n tt) refl refl s)
      ]
