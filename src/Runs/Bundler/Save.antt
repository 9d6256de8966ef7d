-- ===== src/Runs/Bundler/Save.antt =====
-- crates/bsrs/src/engine/bundler.rs: `prepare_stream`, `save` and `declare_stream`.
use bsrs.Prelude.{
  Bool, true, String, Option, none, some, List, [], ◌∷◌, ◌++◌, map, if◌then◌else◌, str_eq,
}
use bsrs.Prelude.Maps.{lookup, insert, keys}
use bsrs.Runs.Documents.{
  Payload, Fields, DataKey, Configuration, PerObjectHint, EventDescriptor, ReadingValue, Document,
  descriptor_doc, event_doc,
}
use bsrs.Runs.Compose
use bsrs.Runs.Compose.{RunBundle}
use bsrs.Runs.Bundler.{
  RunBundler, StreamObject, OpenBundle, Result, ok, err, save_without_open, unknown_stream, extend,
  sort,
}

-- The four maps that `prepare_stream` fills.
pub record Shape (P : Payload) : Type 0 where
  pub data_keys : Fields (DataKey P)
  pub object_keys : Fields (List String)
  pub hints : Fields PerObjectHint
  pub configuration : Fields (Configuration P)

-- `hints.entry(name).or_default().fields = Some(fields)`
abbrev pub set_hint : String → Option (List String) → Fields PerObjectHint → Fields PerObjectHint
set_hint name none m = m
set_hint name (some fs) m = elim (lookup name m) [
  | none ↦ insert name (record { fields = some fs; nx_class = none }) m
  | some h ↦ insert name (record h { fields = some fs }) m
]

-- `(!hints.is_empty()).then_some(hints)`
abbrev pub some_hints : Fields PerObjectHint → Option (Fields PerObjectHint)
some_hints [] = none
some_hints (h ∷ hs) = some (h ∷ hs)

module _ {P : Payload} where
  abbrev pub stamp : String → Fields (DataKey P) → Fields (DataKey P)
  stamp name = map (λ e. (e.0, record e.1 { object_name = some name }))

  unfoldable pub add_object : Shape P → StreamObject P → Shape P
  unfolding extend sort
  add_object s obj = elim obj.object [
    | none ↦ record s { data_keys = extend s.data_keys obj.data_keys }
    | some name ↦ record {
      data_keys = extend s.data_keys (stamp name obj.data_keys);
      object_keys = insert name (sort (keys obj.data_keys)) s.object_keys;
      hints = set_hint name obj.hint_fields s.hints;
      configuration = insert name obj.configuration s.configuration;
    }
  ]

  unfoldable pub shape_of : Shape P → List (StreamObject P) → Shape P
  unfolding add_object
  shape_of s [] = s
  shape_of s (obj ∷ objs) = shape_of (add_object s obj) objs

  abbrev pub empty_shape : Shape P
  empty_shape = record { data_keys = []; object_keys = []; hints = []; configuration = [] }

  unfoldable pub prepare_stream :
      String
      → P.Float
      → RunBundler P
      → String
      → List (StreamObject P)
      → RunBundler P × EventDescriptor P
  unfolding shape_of
  prepare_stream uid time r name objs =
      let s = shape_of empty_shape objs in
      let (b, (d, is_new)) =
        Compose.descriptor uid time r.bundle name s.data_keys s.configuration (some_hints s.hints)
          s.object_keys in
      (record r { bundle = b; descriptors = insert name d.uid r.descriptors }, d)

  unfoldable pub declare_stream :
      String
      → P.Float
      → RunBundler P
      → String
      → List (StreamObject P)
      → RunBundler P × EventDescriptor P
  unfolding prepare_stream
  declare_stream uid time r name objs = prepare_stream uid time r name objs

  -- Whether the stream has no descriptor yet.
  unfoldable pub needs_descriptor : RunBundler P → String → Bool
  needs_descriptor r name = elim (lookup name r.descriptors) [ none ↦ true | some u ↦ str_eq u "" ]

  unfoldable pub emit_event :
      String
      → P.Float
      → RunBundler P
      → String
      → Fields (ReadingValue P)
      → List (Document P)
      → RunBundler P × Result (List (Document P))
  unfolding extend
  emit_event uid time r name readings out =
      let (b, ev) =
        Compose.event uid time r.bundle name (extend [] (map (λ e. (e.0, e.1.value)) readings))
          (extend [] (map (λ e. (e.0, e.1.timestamp)) readings)) in
      elim ev [
        | none ↦ (record r { bundle = b }, err unknown_stream)
        | some e ↦ (record r { bundle = b }, ok (out ++ event_doc e ∷ []))
      ]

  -- `save` of a bundle that was taken out of `open`.
  unfoldable pub save_bundle :
      String
      → String
      → P.Float
      → RunBundler P
      → OpenBundle P
      → RunBundler P × Result (List (Document P))
  unfolding prepare_stream emit_event needs_descriptor
  save_bundle desc_uid event_uid time r b = elim b.objs [
    | [] ↦ (r, ok [])
    | _ ∷ _ ↦
        if needs_descriptor r b.stream_name
        then (let (r', d) = prepare_stream desc_uid time r b.stream_name b.objs in
            emit_event event_uid time r' b.stream_name b.readings (descriptor_doc d ∷ []))
        else emit_event event_uid time r b.stream_name b.readings []
  ]

  unfoldable pub save :
      String → String → P.Float → RunBundler P → RunBundler P × Result (List (Document P))
  unfolding save_bundle
  save desc_uid event_uid time r = elim r.open_bundle [
    | none ↦ (r, err save_without_open)
    | some b ↦ save_bundle desc_uid event_uid time (record r { open_bundle = none }) b
  ]
