-- ===== src/Runs/Bundler.antt =====
-- crates/bsrs/src/engine/bundler.rs: `RunBundler`, the state of one run between its documents.
-- The run's `RunBundle`, which monitor pumps share, is the field `bundle`: what a pump does to it
-- is a step of its own. A constructor of `PlanError` is the message of a `BsrsError::Plan`.
pub mod Save
pub mod Rewind
pub mod Reads
pub mod Saved
use bsrs.Prelude.{
  ℕ, suc, Bool, true, false, String, Option, none, some, List, [], ◌∷◌, ◌++◌, map, if◌then◌else◌,
  str_eq, find, length, ◌==◌, ◌&&◌,
}
use bsrs.Prelude.Maps.{lookup, insert, keys, over}
use Prim.Native.String.{compare}
use Prim.Native.Nat.{Ordering}
use bsrs.Runs.Documents.{
  Payload, Fields, DataKey, Configuration, PerObjectHint, EventDescriptor, Event, ReadingValue,
  Document, descriptor_doc, event_doc,
}
use bsrs.Runs.Compose
use bsrs.Runs.Compose.{RunBundle}

pub data PlanError : Type 0 where
  create_while_open read_without_open save_without_open drop_without_open unknown_stream : PlanError
  collide : String → PlanError

pub data Result (A : Type 0) : Type 0 where
  ok : A → Result A
  err : PlanError → Result A

pub record StreamObject (P : Payload) : Type 0 where
  pub object : Option String
  pub data_keys : Fields (DataKey P)
  pub hint_fields : Option (List String)
  pub configuration : Configuration P

pub record OpenBundle (P : Payload) : Type 0 where
  pub stream_name : String
  pub readings : Fields (ReadingValue P)
  pub objs : List (StreamObject P)

-- The uid of a `DescriptorState`, its one field, is the value in `descriptors`. A `BTreeSet` of
-- names is the list of them in order.
pub record RunBundler (P : Payload) : Type 0 where
  pub bundle : RunBundle P
  pub descriptors : Fields String
  pub open_bundle : Option (OpenBundle P)
  pub start_uid : String
  pub config_cache : Fields (Configuration P)
  pub seq_snapshot : Option (Fields ℕ)
  pub stream_resource_data_keys : Fields String
  pub declared_streams : List (List String × List String)

-- `HashMap::extend`.
unfoldable pub extend : {A : Type 0} → Fields A → Fields A → Fields A
extend m [] = m
extend m ((k, v) ∷ rest) = extend (insert k v m) rest

-- `sort` on texts.
unfoldable pub insert_sorted : String → List String → List String
insert_sorted k [] = k ∷ []
insert_sorted k (j ∷ js) = elim (compare k j) [
  | Ordering.gt ↦ j ∷ insert_sorted k js
  | _ ↦ k ∷ (j ∷ js)
]

unfoldable pub sort : List String → List String
sort [] = []
sort (k ∷ ks) = insert_sorted k (sort ks)

abbrev pub same_names : List String → List String → Bool
same_names [] [] = true
same_names (a ∷ xs) (b ∷ ys) = str_eq a b && same_names xs ys
same_names _ _ = false

-- `entry(objs).or_default().push(stream_name)`
unfoldable pub push_declared :
    List String → String → List (List String × List String) → List (List String × List String)
push_declared objs name [] = (objs, name ∷ []) ∷ []
push_declared objs name ((os, ns) ∷ m) =
    if same_names os objs then (os, ns ++ name ∷ []) ∷ m else (os, ns) ∷ push_declared objs name m

unfoldable pub find_declared : List String → List (List String × List String) → List String
find_declared objs [] = []
find_declared objs ((os, ns) ∷ m) = if same_names os objs then ns else find_declared objs m

abbrev pub has_key : {A : Type 0} → Fields A → String → Bool
has_key m k = elim (lookup k m) [ none ↦ false | some _ ↦ true ]

-- `filter(|s| !s.is_empty())`
abbrev pub nonempty : String → Option String
nonempty s = if str_eq s "" then none else some s

module _ {P : Payload} where
  unfoldable pub objectless : Configuration P → Fields (DataKey P) → StreamObject P
  objectless no_configuration ks = record {
    object = none;
    data_keys = ks;
    hint_fields = none;
    configuration = no_configuration;
  }

  unfoldable pub new : RunBundle P → RunBundler P
  new b = record {
    bundle = b;
    descriptors = [];
    open_bundle = none;
    start_uid = b.start_uid;
    config_cache = [];
    seq_snapshot = none;
    stream_resource_data_keys = [];
    declared_streams = [];
  }

  unfoldable pub record_declared_stream : RunBundler P → List String → String → RunBundler P
  unfolding push_declared
  record_declared_stream r objs name = record r {
    declared_streams = push_declared objs name r.declared_streams;
  }

  unfoldable pub declared_stream_names : RunBundler P → List String → List String
  unfolding find_declared
  declared_stream_names r objs = find_declared objs r.declared_streams

  unfoldable pub cached_configuration : RunBundler P → String → Option (Configuration P)
  cached_configuration r name = lookup name r.config_cache

  unfoldable pub cache_configuration : RunBundler P → String → Configuration P → RunBundler P
  cache_configuration r name config = record r { config_cache = insert name config r.config_cache }

  -- `uids k` is the UUID drawn for the k-th descriptor that is built.
  unfoldable pub redescribe_all :
      (ℕ → String)
      → P.Float
      → RunBundle P
      → ℕ
      → List String
      → String
      → Configuration P
      → List (EventDescriptor P)
  redescribe_all uids time b k [] object config = []
  redescribe_all uids time b k (name ∷ names) object config =
      elim (Compose.compose_redescribe (uids k) time b name object config) [
        | none ↦ redescribe_all uids time b k names object config
        | some d ↦ d ∷ redescribe_all uids time b (suc k) names object config
      ]

  unfoldable pub compose_reconfigure :
      (ℕ → String) → P.Float → RunBundler P → String → Configuration P → List (EventDescriptor P)
  unfolding redescribe_all
  compose_reconfigure uids time r object config =
      redescribe_all uids time r.bundle 0 (keys r.descriptors) object config

  unfoldable pub install_reconfigured : RunBundler P → List (EventDescriptor P) → RunBundler P
  install_reconfigured r [] = r
  install_reconfigured r (d ∷ ds) = elim d.name [
    | none ↦ install_reconfigured r ds
    | some name ↦
        install_reconfigured
          (record r {
            bundle = Compose.install_descriptor r.bundle name d;
            descriptors = insert name d.uid r.descriptors;
          })
          ds
  ]

  unfoldable pub reset_checkpoint_state : RunBundler P → RunBundler P
  reset_checkpoint_state r = record r { seq_snapshot = some (Compose.snapshot_seq_nums r.bundle) }

  unfoldable pub clear_checkpoint : RunBundler P → RunBundler P
  clear_checkpoint r = record r { seq_snapshot = none }

  unfoldable pub create : RunBundler P → String → RunBundler P × Result Unit
  create r name = elim r.open_bundle [
    | some _ ↦ (r, err create_while_open)
    | none ↦ (
      record r { open_bundle = some (record { stream_name = name; readings = []; objs = [] }) },
      ok tt,
    )
  ]

  unfoldable pub add_read :
      RunBundler P → StreamObject P → Fields (ReadingValue P) → RunBundler P × Result Unit
  unfolding extend
  add_read r obj readings = elim r.open_bundle [
    | none ↦ (r, err read_without_open)
    | some b ↦ elim (find (has_key b.readings) (keys readings)) [
      | some k ↦ (r, err (collide k))
      | none ↦ (
        record r {
          open_bundle =
              some (record b { readings = extend b.readings readings; objs = b.objs ++ obj ∷ [] });
        },
        ok tt,
      )
    ]
  ]

  unfoldable pub is_bundling : RunBundler P → Bool
  is_bundling r = elim r.open_bundle [ none ↦ false | some _ ↦ true ]

  unfoldable pub open_stream_name : RunBundler P → Option String
  open_stream_name r = over (λ b. b.stream_name) r.open_bundle

  unfoldable pub drop_bundle : RunBundler P → RunBundler P × Result Unit
  drop_bundle r = elim r.open_bundle [
    | none ↦ (r, err drop_without_open)
    | some _ ↦ (record r { open_bundle = none }, ok tt)
  ]

  unfoldable pub rewind : RunBundler P → RunBundler P
  rewind r = elim r.seq_snapshot [
    | none ↦ record r { open_bundle = none }
    | some snap ↦ record r { open_bundle = none; bundle = Compose.restore_seq_nums r.bundle snap }
  ]

  unfoldable pub descriptor_uid : RunBundler P → String → Option String
  descriptor_uid r name = elim (lookup name r.descriptors) [ none ↦ none | some u ↦ nonempty u ]
