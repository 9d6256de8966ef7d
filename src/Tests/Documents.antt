-- ===== src/Tests/Documents.antt =====
-- The theorems on a run's documents, each at an input.
use bsrs.Prelude.{
  ℕ, ◌≡◌, refl, ap, true, false, String, Option, none, some, List, [], ◌∷◌, arith, length, ◌<◌,
}
use bsrs.Prelude.Maps.{over, lookup}
use bsrs.Runs.Documents.{from_str, Payload, Configuration, Document}
use bsrs.Runs.Compose.{stop, RunBundle, u64_modulus, or_zero, open_run, snapshot_seq_nums}
use bsrs.Runs.Compose
use bsrs.Runs.Compose.Sequences.{
  Step, describe, emit, emit_page, advance, run, counter, count_up, all_taken, run-seq_nums,
}
use bsrs.Runs.Compose.Sequences
use bsrs.Runs.Compose.Announced.{AllSeen, uid_of, run-descriptors_first}
use bsrs.Runs
use bsrs.Runs.Bundler.{
  RunBundler, StreamObject, OpenBundle, ok, create, add_read, rewind, reset_checkpoint_state,
}
use bsrs.Runs.Bundler.Rewind.{rewind-replays}
use bsrs.Runs.Bundler.Reads.{ReadOutcome, add_read-outcome}
use bsrs.Runs.Bundler.Save.{save}
use bsrs.Runs.Bundler.Saved.{SavesEvent, save-documents}

-- Values and times of the tests are numbers.
abbrev P : Payload
P = record { Value = ℕ; Float = ℕ }

abbrev steps : List (Step P)
steps =
    describe "d1" 0 "primary" [] [] none []
    ∷ emit "e1" 1 "primary" [] []
    ∷ emit "e2" 2 "baseline" [] []
    ∷ emit_page (λ _. "p") 3 "primary" [] [] 2
    ∷ advance "primary" 1
    ∷ []

four_taken : length (all_taken "primary" (open_run {P = P} "r1") steps) ≡ 4
unfolding all_taken Sequences.taken Sequences.step open_run Compose.descriptor Compose.event
    Compose.event_page Compose.advance_seq Compose.bump_seq Compose.seq_run lookup
    bsrs.Prelude.Maps.insert bsrs.Prelude.Maps.modify
four_taken = refl

run-seq_nums_example :
    let b : RunBundle P = open_run "r1" in
    (all_taken "primary" b steps ≡ count_up 0 (length (all_taken "primary" b steps)))
    × (over
          (λ d. or_zero (lookup "primary" d.num_events))
          (stop "s1" 9 (run b steps) "success" none)
        ≡ over (λ x. length (all_taken "primary" b steps)) (from_str "success"))
run-seq_nums_example =
    run-seq_nums "primary" "r1" "s1" "success" 9 none steps (omega (arith, four_taken))

run-descriptors_first_example : AllSeen [] (open_run {P = P} "r1") steps
run-descriptors_first_example = run-descriptors_first "r1" steps

abbrev bundler : RunBundler P
bundler = record {
  bundle = record { start_uid = "r1"; streams = [] };
  descriptors = [];
  open_bundle = none;
  start_uid = "r1";
  config_cache = [];
  seq_snapshot = none;
  stream_resource_data_keys = [];
  declared_streams = [];
}

-- After a checkpoint, the steps, and a pause within an event.
abbrev paused : RunBundler P
paused = record bundler {
  bundle = run bundler.bundle steps;
  open_bundle = some (record { stream_name = "primary"; readings = []; objs = [] });
  seq_snapshot = some (snapshot_seq_nums bundler.bundle);
}

rewind-replays_example :
    ((name : String) → (create (rewind paused) name).1 ≡ ok tt)
    × ((s : String) → counter s (rewind paused).bundle ≡ counter s bundler.bundle)
    × ((s : String) → uid_of s (rewind paused).bundle ≡ uid_of s paused.bundle)
rewind-replays_example =
    rewind-replays bundler paused steps (unfold reset_checkpoint_state in refl) refl

abbrev motor : StreamObject P
motor = record {
  object = some "motor";
  data_keys = [];
  hint_fields = none;
  configuration = record { «data» = []; data_keys = []; timestamps = [] };
}

abbrev reading : String × Runs.Documents.ReadingValue P
reading = ("motor", record { value = 3; timestamp = 1; alarm_severity = none; message = none })

abbrev empty_bundle : OpenBundle P
empty_bundle = record { stream_name = "primary"; readings = []; objs = [] }

abbrev opened : RunBundler P
opened = record bundler { open_bundle = some empty_bundle }

add_read-outcome_example :
    ReadOutcome opened empty_bundle motor (reading ∷ []) (add_read opened motor (reading ∷ []))
unfolding lookup
add_read-outcome_example = add_read-outcome opened empty_bundle motor (reading ∷ []) refl (refl, tt)

abbrev read_bundle : OpenBundle P
read_bundle = record { stream_name = "primary"; readings = reading ∷ []; objs = motor ∷ [] }

abbrev with_read : RunBundler P
with_read = record bundler { open_bundle = some read_bundle }

save-documents_example : SavesEvent with_read "primary" (save "d1" "e1" 5 with_read)
unfolding lookup
save-documents_example =
    save-documents "d1" "e1" 5 with_read read_bundle motor [] refl refl
      (λ s u e. absurd (ground (arith, e)))
