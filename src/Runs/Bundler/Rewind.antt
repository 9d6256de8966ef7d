-- ===== src/Runs/Bundler/Rewind.antt =====
-- Checkpoint and `rewind` (crates/bsrs/src/engine/bundler.rs).
use bsrs.Prelude.{
  ℕ, ◌≡◌, refl, sym, ap, ◌∙◌, inl, inr, String, none, List, [], ◌∷◌, map, arith, str_eq_iff,
  Option-cases,
}
use bsrs.Prelude.Maps.{lookup, over}
use bsrs.Runs.Documents.{Payload, Fields}
use bsrs.Runs.Compose.{RunBundle, StreamState, or_zero, snapshot_seq_nums, restore_seq_nums}
use bsrs.Runs.Compose.Sequences.{Step, step, run, counter, lookup-snapshot}
use bsrs.Runs.Compose.Announced.{uid_of, step-uid_of}
use bsrs.Runs.Bundler.{RunBundler, ok, create, rewind, reset_checkpoint_state}

module _ {P : Payload} where
  restored : (snap : Fields ℕ) → String → StreamState P → StreamState P
  restored snap s st = record st { seq_num = or_zero (lookup s snap) }

  lookup-restored :
      (s : String) (snap : Fields ℕ) (m : Fields (StreamState P))
      → lookup s (map (λ e. (e.0, restored snap e.0 e.1)) m) ≡ over (restored snap s) (lookup s m)
  unfolding lookup
  lookup-restored s snap [] = refl
  lookup-restored s snap ((i, st) ∷ m) = ground (arith, str_eq_iff i s, lookup-restored s snap m)

  lookup-restore_seq_nums :
      (s : String) (b : RunBundle P) (snap : Fields ℕ)
      → lookup s (restore_seq_nums b snap).streams ≡ over (restored snap s) (lookup s b.streams)
  unfolding restore_seq_nums restored
  lookup-restore_seq_nums s b snap = lookup-restored s snap b.streams

  -- A stream stays declared.
  undeclared :
      (s : String) (b : RunBundle P) (steps : List (Step P))
      → uid_of s (run b steps) ≡ none
      → uid_of s b ≡ none
  unfolding run
  undeclared s b [] h = h
  undeclared s b (t ∷ steps) h =
      let k = undeclared s (step b t) steps h in
      elim (step-uid_of s b t) [ inl e ↦ sym e ∙ k | inr (u, e, a) ↦ absurd (ground (arith, e, k)) ]

  counter_restored :
      (s : String) (b b' : RunBundle P)
      → (uid_of s b' ≡ none → uid_of s b ≡ none)
      → counter s (restore_seq_nums b' (snapshot_seq_nums b)) ≡ counter s b
  unfolding restored
  counter_restored s b b' h = elim (Option-cases (lookup s b'.streams)) [
    | inr (st, e) ↦
        ground (arith, e, lookup-restore_seq_nums s b' (snapshot_seq_nums b), lookup-snapshot s b)
    | inl e ↦
        let n = h (ground (arith, e)) in
        elim (Option-cases (lookup s b.streams)) [
          | inl k ↦ ground (arith, e, k, lookup-restore_seq_nums s b' (snapshot_seq_nums b))
          | inr (st, k) ↦ absurd (ground (arith, n, k))
        ]
  ]

  uid_of_restored :
      (s : String) (b : RunBundle P) (snap : Fields ℕ)
      → uid_of s (restore_seq_nums b snap) ≡ uid_of s b
  unfolding restored
  uid_of_restored s b snap =
      ground (arith, lookup-restore_seq_nums s b snap, Option-cases (lookup s b.streams))

  -- After a checkpoint and any steps on the run's streams, a rewind closes an open bundle, so that
  -- the replayed `create` succeeds, puts every stream's counter back to its value at the checkpoint
  -- (0 for a stream declared since), and leaves every stream's descriptor as it is.
  pub rewind-replays :
      (r r' : RunBundler P) (steps : List (Step P))
      → r'.seq_snapshot ≡ (reset_checkpoint_state r).seq_snapshot
      → r'.bundle ≡ run r.bundle steps
      → ((name : String) → (create (rewind r') name).1 ≡ ok tt)
        × ((s : String) → counter s (rewind r').bundle ≡ counter s r.bundle)
        × ((s : String) → uid_of s (rewind r').bundle ≡ uid_of s r'.bundle)
  unfolding reset_checkpoint_state rewind create
  rewind-replays r r' steps e f =
      let g = ap (λ b. restore_seq_nums b (snapshot_seq_nums r.bundle)) f in
      (
        λ name. ground (arith, e),
        λ s. ground (
          arith,
          e,
          f,
          counter_restored s r.bundle (run r.bundle steps) (undeclared s r.bundle steps),
        ),
        λ s. ground (arith, e, uid_of_restored s r'.bundle (snapshot_seq_nums r.bundle)),
      )
