-- ===== src/Engine/Assets.antt =====
-- `pack_external_assets` of crates/bsrs/src/engine/run_engine.rs: one drain of external-asset
-- documents is checked and stamped. The sequence numbers are `u64`. A constructor of `PackError` is
-- the message of a `BsrsError::Plan`; the documents of a drain that fails are dropped by the callers,
-- so a failure carries the registry alone.
pub mod Stamped
pub mod Drain
use bsrs.Prelude.{
  ℕ, ◌+◌, ◌-◌, ◌%◌, ◌^◌, Bool, true, false, not, ◌&&◌, ◌||◌, String, Option, none, some, List, [],
  ◌∷◌, ◌++◌, ◌==◌, if◌then◌else◌, str_eq, any, all, length,
}
use bsrs.Prelude.Maps.{lookup, insert}
use bsrs.Runs.Documents.{Payload, StreamResource, StreamRange, StreamDatum}

-- The documents of a drain, as the packing tells them apart; `D` is any other document.
pub data AssetDoc (P : Payload) (D : Type 0) : Type 0 where
  resource_doc : StreamResource P → AssetDoc P D
  datum_doc : StreamDatum → AssetDoc P D
  other_doc : D → AssetDoc P D

pub data PackError : Type 0 where
  resource_twice unknown_key prefilled unknown_resource uneven : String → PackError
  keys_missing : PackError

-- What the loop carries: the shared width, the keys received, the run's registry of resources.
pub record Pack : Type 0 where
  pub width : Option ℕ
  pub received : List String
  pub registry : List (String × String)

pub data Packed (A : Type 0) : Type 0 where
  packed : A → Pack → Packed A
  failed : List (String × String) → PackError → Packed A

abbrev pub u64_mod : ℕ
u64_mod = 2 ^ 64

abbrev pub contains : List String → String → Bool
contains ks k = any (λ j. str_eq j k) ks

-- `HashSet::insert`
abbrev pub add_key : List String → String → List String
add_key ks k = if contains ks k then ks else ks ++ k ∷ []

abbrev pub or_run : String → Option String → Option String
or_run run none = some run
or_run run (some r) = some r

abbrev pub same_width : Option ℕ → ℕ → Bool
same_width none w = true
same_width (some prev) w = prev == w

abbrev pub stamp : ℕ → StreamDatum → ℕ → StreamDatum
stamp next_seq d w = record d {
  seq_nums = record { start = next_seq; stop = (next_seq + w) % u64_mod };
}

abbrev pub is_nil : List String → Bool
is_nil [] = true
is_nil (k ∷ ks) = false

module _ {P : Payload} {D : Type 0} (run_start : String) (next_seq : ℕ)
    (external : List String) where
  abbrev pub resource_at : Option String → StreamResource P → Pack → Packed (AssetDoc P D)
  resource_at (some k) r s = failed s.registry (resource_twice r.uid)
  resource_at none r s =
      if contains external r.data_key
      then packed (resource_doc (record r { run_start = or_run run_start r.run_start }))
          (record s { registry = insert r.uid r.data_key s.registry })
      else failed s.registry (unknown_key r.data_key)

  unfoldable pub pack_resource : StreamResource P → Pack → Packed (AssetDoc P D)
  pack_resource r s = resource_at (lookup r.uid s.registry) r s

  unfoldable pub pack_datum : StreamDatum → Pack → Packed (AssetDoc P D)
  pack_datum d s =
      let w = d.indices.stop - d.indices.start in
      if not (d.seq_nums.start == 0) || not (d.seq_nums.stop == 0)
      then failed s.registry (prefilled d.uid)
      else elim (lookup d.stream_resource s.registry) [
        | none ↦ failed s.registry (unknown_resource d.stream_resource)
        | some k ↦
            if same_width s.width w
            then packed (datum_doc (stamp next_seq d w))
                (record s { width = some w; received = add_key s.received k })
            else failed s.registry (uneven d.uid)
      ]

  unfoldable pub pack_doc : AssetDoc P D → Pack → Packed (AssetDoc P D)
  pack_doc (resource_doc r) s = pack_resource r s
  pack_doc (datum_doc d) s = pack_datum d s
  pack_doc (other_doc d) s = packed (other_doc d) s

  abbrev pub put_doc : AssetDoc P D → Packed (List (AssetDoc P D)) → Packed (List (AssetDoc P D))
  put_doc d (failed r e) = failed r e
  put_doc d (packed ds s) = packed (d ∷ ds) s

  abbrev pub and_then :
      Packed (AssetDoc P D) → (Pack → Packed (List (AssetDoc P D))) → Packed (List (AssetDoc P D))
  and_then (failed r e) go = failed r e
  and_then (packed d s) go = put_doc d (go s)

  -- `for doc in docs`
  unfoldable pub pack_docs : List (AssetDoc P D) → Pack → Packed (List (AssetDoc P D))
  pack_docs [] s = packed [] s
  pack_docs (d ∷ ds) s = and_then (pack_doc d s) (λ s'. pack_docs ds s')

  -- The check of the keys, after the loop.
  abbrev pub check_keys : Packed (List (AssetDoc P D)) → Packed (List (AssetDoc P D))
  check_keys (failed r e) = failed r e
  check_keys (packed ds s) =
      if not (is_nil s.received)
        && (not (length external == length s.received) || not (all (contains s.received) external))
      then failed s.registry keys_missing
      else packed ds s

  -- The width that is returned is `width.unwrap_or(0)` of the result.
  unfoldable pub pack_external_assets :
      List (AssetDoc P D) → List (String × String) → Packed (List (AssetDoc P D))
  pack_external_assets docs registry =
      check_keys (pack_docs docs (record { width = none; received = []; registry = registry }))
