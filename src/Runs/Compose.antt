-- ===== src/Runs/Compose.antt =====
-- crates/bsrs/src/event_model/compose.rs: `RunBundle`, the composer of one run's documents.
-- The UUID and the time that an operation draws are arguments, `uid` and `time`. Each operation
-- holds the lock on `streams`, so it is one step.
pub mod Sequences
pub mod Announced
use bsrs.Prelude.{
  ℕ, zero, suc, ◌+◌, ◌%◌, Bool, true, false, String, Option, none, some, List, [], ◌∷◌, map,
  if◌then◌else◌,
}
use bsrs.Prelude.Maps.{lookup, insert, modify, over}
use text.Mathlib.Text.{starts_with}
use bsrs.Runs.Documents.{
  Payload, Fields, DataKey, Configuration, PerObjectHint, EventDescriptor, Event, EventPage,
  RunStop, from_str,
}

abbrev pub u64_modulus : ℕ
u64_modulus = 18446744073709551616

-- `fetch_add` on an `AtomicU64`, which wraps.
abbrev pub wrapping_add : ℕ → ℕ → ℕ
wrapping_add a b = (a + b) % u64_modulus

pub record StreamState (P : Payload) : Type 0 where
  pub descriptor : EventDescriptor P
  pub seq_num : ℕ

pub record RunBundle (P : Payload) : Type 0 where
  pub start_uid : String
  pub streams : Fields (StreamState P)

-- `(1..=n).map(|j| start + j)`
unfoldable pub seq_run : ℕ → ℕ → List ℕ
seq_run start zero = []
seq_run start (suc n) = wrapping_add start 1 ∷ seq_run (wrapping_add start 1) n

-- `(0..n).map(|_| x)`
unfoldable pub repeat : {A : Type 0} → ℕ → (ℕ → A) → List A
repeat zero f = []
repeat (suc n) f = f 0 ∷ repeat n (λ k. f (suc k))

abbrev pub or_zero : Option ℕ → ℕ
or_zero none = 0
or_zero (some n) = n

module _ {P : Payload} where
  unfoldable pub open_run : String → RunBundle P
  open_run uid = record { start_uid = uid; streams = [] }

  unfoldable pub descriptor :
      String
      → P.Float
      → RunBundle P
      → String
      → Fields (DataKey P)
      → Fields (Configuration P)
      → Option (Fields PerObjectHint)
      → Fields (List String)
      → RunBundle P × (EventDescriptor P × Bool)
  descriptor uid time b name data_keys configuration hints object_keys =
      elim (lookup name b.streams) [
        | some st ↦ (b, (st.descriptor, false))
        | none ↦
            let d : EventDescriptor P = record {
              uid = uid;
              run_start = b.start_uid;
              time = time;
              data_keys = data_keys;
              configuration = configuration;
              name = some name;
              hints = hints;
              object_keys = object_keys;
            } in
            (
              record b { streams = insert name (record { descriptor = d; seq_num = 0 }) b.streams },
              (d, true),
            )
      ]

  unfoldable pub compose_redescribe :
      String
      → P.Float
      → RunBundle P
      → String
      → String
      → Configuration P
      → Option (EventDescriptor P)
  compose_redescribe uid time b stream_name object_name configuration =
      elim (lookup stream_name b.streams) [
        | none ↦ none
        | some st ↦ elim (lookup object_name st.descriptor.configuration) [
          | none ↦ none
          | some _ ↦ some (record st.descriptor {
            uid = uid;
            time = time;
            configuration = insert object_name configuration st.descriptor.configuration;
          })
        ]
      ]

  unfoldable pub install_descriptor : RunBundle P → String → EventDescriptor P → RunBundle P
  install_descriptor b stream_name d = record b {
    streams = modify stream_name (λ st. record st { descriptor = d }) b.streams;
  }

  -- `fetch_add` on the counter of a stream.
  unfoldable pub bump_seq : RunBundle P → String → ℕ → RunBundle P
  bump_seq b stream_name n = record b {
    streams =
        modify stream_name (λ st. record st { seq_num = wrapping_add st.seq_num n }) b.streams;
  }

  unfoldable pub event :
      String
      → P.Float
      → RunBundle P
      → String
      → Fields P.Value
      → Fields P.Float
      → RunBundle P × Option (Event P)
  unfolding bump_seq
  event uid time b stream_name values timestamps = elim (lookup stream_name b.streams) [
    | none ↦ (b, none)
    | some st ↦ (
      bump_seq b stream_name 1,
      some (record {
        uid = uid;
        descriptor = st.descriptor.uid;
        time = time;
        seq_num = wrapping_add st.seq_num 1;
        «data» = values;
        timestamps = timestamps;
        filled = [];
      }),
    )
  ]

  unfoldable pub event_page :
      (ℕ → String)
      → P.Float
      → RunBundle P
      → String
      → Fields (List P.Value)
      → Fields (List P.Float)
      → ℕ
      → RunBundle P × Option (EventPage P)
  unfolding bump_seq seq_run repeat
  event_page uids time b stream_name values timestamps n = elim (lookup stream_name b.streams) [
    | none ↦ (b, none)
    | some st ↦ (
      bump_seq b stream_name n,
      some (record {
        uid = repeat n uids;
        descriptor = st.descriptor.uid;
        time = repeat n (λ _. time);
        seq_num = seq_run st.seq_num n;
        «data» = values;
        timestamps = timestamps;
        filled = [];
      }),
    )
  ]

  unfoldable pub peek_next_seq : RunBundle P → String → Option ℕ
  peek_next_seq b stream_name =
      over (λ st. wrapping_add st.seq_num 1) (lookup stream_name b.streams)

  unfoldable pub advance_seq : RunBundle P → String → ℕ → RunBundle P × Bool
  unfolding bump_seq
  advance_seq b stream_name n = elim (lookup stream_name b.streams) [
    | none ↦ (b, false)
    | some _ ↦ (bump_seq b stream_name n, true)
  ]

  abbrev pub is_external : DataKey P → Bool
  is_external dk = elim dk.external [ none ↦ false | some e ↦ starts_with e "STREAM:" ]

  unfoldable pub external_keys : Fields (DataKey P) → List String
  external_keys [] = []
  external_keys ((k, dk) ∷ ks) =
      let rest = external_keys ks in if is_external dk then k ∷ rest else rest

  unfoldable pub external_data_keys : RunBundle P → String → Option (List String)
  unfolding external_keys
  external_data_keys b stream_name =
      over (λ st. external_keys st.descriptor.data_keys) (lookup stream_name b.streams)

  unfoldable pub snapshot_seq_nums : RunBundle P → Fields ℕ
  snapshot_seq_nums b = map (λ e. (e.0, e.1.seq_num)) b.streams

  unfoldable pub restore_seq_nums : RunBundle P → Fields ℕ → RunBundle P
  restore_seq_nums b snapshot = record b {
    streams = map (λ e. (e.0, record e.1 { seq_num = or_zero (lookup e.0 snapshot) })) b.streams;
  }

  -- `none` is the panic of `expect` at an exit status outside the schema.
  unfoldable pub stop : String → P.Float → RunBundle P → String → Option String → Option (RunStop P)
  unfolding from_str snapshot_seq_nums
  stop uid time b exit_status reason =
      over
        (λ s. record {
          uid = uid;
          run_start = b.start_uid;
          time = time;
          exit_status = s;
          reason = reason;
          num_events = snapshot_seq_nums b;
          data_type = none;
          extra = [];
        })
        (from_str exit_status)

  unfoldable pub descriptor_uid_for : RunBundle P → String → Option String
  descriptor_uid_for b stream_name = over (λ st. st.descriptor.uid) (lookup stream_name b.streams)
