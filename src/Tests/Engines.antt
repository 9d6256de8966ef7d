-- ===== src/Tests/Engines.antt =====
-- The theorems on the run engine, each at an input.
use bsrs.Prelude.{
  ℕ, ◌≡◌, refl, true, false, none, some, List, [], ◌∷◌, ◌++◌, arith, length, String, map,
}
use bsrs.Runs.Documents.{Payload}
use bsrs.Engine.Control.Race.{suspend_hold-outlives_reset}
use bsrs.Engine.Control.{suspend_hold, mark_paused, reset_for_run, release, Suspension, u64_mod}
use bsrs.Engine.Control.Spec.{
  Step, begins, pauses, resumes, suspends, lifts, spec_start, start, steps, spec_steps, view,
}
use bsrs.Engine.Control.Spec
use bsrs.Engine.Control
use bsrs.Engine.Control.Refined.{view-steps}
use bsrs.Engine.Msg.{Parts, Msg, wait, sleep, read, is_cacheable}
use bsrs.Prelude.{All, ◌⊎◌}
use bsrs.Engine.Assets.{
  AssetDoc, resource_doc, datum_doc, other_doc, Pack, packed, pack_external_assets,
}
use bsrs.Prelude.Rows.{Pairwise}
use bsrs.Engine.Assets.Stamped.{StampedAs, IsNoDatum, Serves, Some}
use bsrs.Engine.Assets.Drain.{pack_external_assets-drain}
use bsrs.Engine.Rewind.{
  PlanItem, bare, respond, commit_of, is_nested, Region, on_resume, pull_msg, turns,
}
use bsrs.Engine.Rewind.Replay.{
  Runs, msg_of, kept, region, on_resume-replays, on_resume-loses_replayed,
}

abbrev beam_dump : Suspension ℕ
beam_dump = record { justification = "beam dump"; pre_plan = none; post_plan = none }

-- A suspension of one run, then a new run with two, one of which lifts.
abbrev two_runs : List (Step ℕ)
two_runs =
    begins ∷ suspends beam_dump ∷ begins ∷ suspends beam_dump ∷ suspends beam_dump ∷ lifts 1 ∷ []

view-steps_example : view (steps two_runs start) ≡ spec_steps two_runs spec_start
view-steps_example = view-steps two_runs (omega arith)

two_left : length (steps two_runs start).tasks ≡ 2
unfolding Control.new steps Spec.step
two_left = refl

suspend_hold-outlives_reset_example :
    let (held, gen) = suspend_hold {F = ℕ} Control.new beam_dump in
    let paused = mark_paused (reset_for_run held) in
    let lifted = release paused gen in
    (lifted.is_paused ≡ true) × (lifted.manual_pause ≡ false) × (lifted.holds ≡ 0)
unfolding Control.new
suspend_hold-outlives_reset_example =
    suspend_hold-outlives_reset Control.new beam_dump (omega arith)

-- Parts of numbers, and two messages of a plan.
abbrev parts : Parts
parts = record {
  Object = String;
  name = λ s. s;
  Value = ℕ;
  Float = ℕ;
  Duration = ℕ;
  Factory = ℕ;
  Callback = ℕ;
  Filter = ℕ;
  Boxed = ℕ;
  Doc = ℕ;
  Sink = ℕ;
  Thrown = ℕ;
  StreamObjs = ℕ;
}

abbrev D : Payload
D = record { Value = ℕ; Float = ℕ }

abbrev quiet : Msg parts → Runs D parts → Runs D parts
quiet m runs = runs

abbrev items : List (PlanItem parts)
items = bare (read "det") ∷ respond (wait "g" true none) ∷ bare (wait "g" true none) ∷ []

on_resume-replays_example :
    (before paused after : Region D parts) × (turns quiet
        (length items)
        (region [] [] [] (items ++ bare (sleep 5) ∷ []))
      ≡ some (map msg_of items, before))
    × (pull_msg before ≡ (paused, some (sleep 5)))
    × (turns quiet (length (kept items ++ sleep 5 ∷ [])) (on_resume paused)
        ≡ some (kept items ++ sleep 5 ∷ [], after))
    × (after.replay_queue ≡ [])
    × (after.plan ≡ [])
unfolding is_cacheable commit_of is_nested
on_resume-replays_example =
    on_resume-replays quiet items (sleep 5) [] [] ((refl, refl), ((refl, refl), ((refl, refl), tt)))
      (refl, refl) refl

on_resume-loses_replayed_example :
    (before paused : Region D parts) × (turns quiet 1 (region [] (read "det" ∷ sleep 5 ∷ []) [] [])
      ≡ some (read "det" ∷ [], before))
    × (pull_msg before ≡ (paused, some (sleep 5)))
    × ((on_resume paused).msg_cache ≡ [])
    × ((on_resume paused).replay_queue ≡ [])
    × ((on_resume paused).plan ≡ [])
unfolding commit_of is_nested
on_resume-loses_replayed_example =
    on_resume-loses_replayed quiet (read "det" ∷ []) (sleep 5) [] [] [] ((refl, refl), tt)

-- Two resources of one file writer, and three new frames in each.
abbrev resource_of : String → String → AssetDoc D ℕ
resource_of uid key = resource_doc record {
  uid = uid;
  data_key = key;
  mimetype = "application/x-hdf5";
  uri = "file://d";
  parameters = [];
  run_start = none;
}

abbrev frames : String → String → AssetDoc D ℕ
frames uid resource = datum_doc record {
  uid = uid;
  stream_resource = resource;
  descriptor = "d1";
  indices = record { start = 4; stop = 7 };
  seq_nums = record { start = 0; stop = 0 };
}

abbrev drain : List (AssetDoc D ℕ)
drain =
    resource_of "s1" "img"
    ∷ resource_of "s2" "sum"
    ∷ frames "m1" "s1"
    ∷ other_doc 0
    ∷ frames "m2" "s2"
    ∷ []

abbrev stamped_frames : String → String → AssetDoc D ℕ
stamped_frames uid resource = datum_doc record {
  uid = uid;
  stream_resource = resource;
  descriptor = "d1";
  indices = record { start = 4; stop = 7 };
  seq_nums = record { start = 5; stop = 8 };
}

abbrev of_run_r1 : String → String → AssetDoc D ℕ
of_run_r1 uid key = resource_doc record {
  uid = uid;
  data_key = key;
  mimetype = "application/x-hdf5";
  uri = "file://d";
  parameters = [];
  run_start = some "r1";
}

abbrev drained : List (AssetDoc D ℕ)
drained =
    of_run_r1 "s1" "img"
    ∷ of_run_r1 "s2" "sum"
    ∷ stamped_frames "m1" "s1"
    ∷ other_doc 0
    ∷ stamped_frames "m2" "s2"
    ∷ []

abbrev after_drain : Pack
after_drain = record {
  width = some 3;
  received = "img" ∷ "sum" ∷ [];
  registry = ("s1", "img") ∷ ("s2", "sum") ∷ [];
}

drain_accepted :
    pack_external_assets "r1" 5 ("img" ∷ "sum" ∷ []) drain [] ≡ packed drained after_drain
unfolding pack_external_assets bsrs.Engine.Assets.pack_docs bsrs.Engine.Assets.pack_doc
    bsrs.Engine.Assets.pack_resource bsrs.Prelude.Maps.lookup bsrs.Prelude.Maps.insert
    bsrs.Engine.Assets.pack_datum
drain_accepted = refl

pack_external_assets-drain_example :
    Pairwise (StampedAs "r1" 5 (some 3)) drain drained
    × (All IsNoDatum drained
        ⊎ All (λ k. Some (Serves after_drain.registry k) drained) ("img" ∷ "sum" ∷ []))
pack_external_assets-drain_example =
    pack_external_assets-drain D ℕ "r1" 5 ("img" ∷ "sum" ∷ []) drain drained [] after_drain
      drain_accepted
