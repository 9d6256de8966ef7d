-- ===== src/Engine/Rewind/Replay.antt =====
-- What a resume replays, of crates/bsrs/src/engine/run_engine.rs.
use bsrs.Prelude.{
  ◌≡◌, refl, sym, ap, ◌∙◌, inl, inr, true, false, String, Option, some, List, [], ◌∷◌, ◌++◌, map,
  if◌then◌else◌, length, All, Bool-cases,
}
use mathlib.Core.List.{append-nil, append_assoc}
use bsrs.Prelude.Alls.{All-append}
use bsrs.Runs.Documents.{Payload}
use bsrs.Engine.Msg.{Parts, Msg, is_cacheable}
use bsrs.Engine.Rewind.{
  PlanItem, bare, respond, RunSlot, Region, keeps, commit_of, is_nested, rewind_runs, on_resume,
  pull_msg, handle, turn, turns, with_msg, chain, add_turn,
}

abbrev pub Runs : Payload → Parts → Type 0
Runs D P = List (Option String × RunSlot D P)

module _ {P : Parts} where
  abbrev pub msg_of : PlanItem P → Msg P
  msg_of (bare m) = m
  msg_of (respond m) = m

  -- The messages that a rewind may replay.
  abbrev pub kept : List (PlanItem P) → List (Msg P)
  kept [] = []
  kept (bare m ∷ items) = if is_cacheable m then m ∷ kept items else kept items
  kept (respond m ∷ items) = kept items

  -- The message leaves the rewindable region alone.
  abbrev pub IsPlain : Msg P → Type 0
  IsPlain m = (commit_of m ≡ keeps) × (is_nested m ≡ false)

  kept-cons :
      (i : PlanItem P) (items : List (PlanItem P)) → kept (i ∷ []) ++ kept items ≡ kept (i ∷ items)
  kept-cons (bare m) items = elim (Bool-cases (is_cacheable m)) [
    | inl e ↦ rw e refl
    | inr e ↦ rw e refl
  ]
  kept-cons (respond m) items = refl

  kept-IsPlain :
      (items : List (PlanItem P)) → All (λ i. IsPlain (msg_of i)) items → All IsPlain (kept items)
  kept-IsPlain [] h = tt
  kept-IsPlain (bare m ∷ items) h = elim (Bool-cases (is_cacheable m)) [
    | inl e ↦ rw e (h.0, kept-IsPlain items h.1)
    | inr e ↦ rw e (kept-IsPlain items h.1)
  ]
  kept-IsPlain (respond m ∷ items) h = kept-IsPlain items h.1

module _ {D : Payload} {P : Parts} where
  abbrev pub region : List (Msg P) → List (Msg P) → Runs D P → List (PlanItem P) → Region D P
  region cache queue runs plan = record {
    msg_cache = cache;
    replay_queue = queue;
    can_rewind = true;
    runs = runs;
    plan = plan;
  }

  module _ (runs_after : Msg P → Runs D P → Runs D P) where
    handle-plain :
        (m : Msg P) (c q : List (Msg P)) (runs : Runs D P) (plan : List (PlanItem P))
        → IsPlain m
        → handle runs_after m (region c q runs plan) ≡ some (region c q (runs_after m runs) plan)
    unfolding handle
    handle-plain m c q runs plan h = rw (h.0, h.1) refl

    turn-replay :
        (m : Msg P) (c q : List (Msg P)) (runs : Runs D P) (plan : List (PlanItem P))
        → IsPlain m
        → turn runs_after (region c (m ∷ q) runs plan)
          ≡ some (m, region c q (runs_after m runs) plan)
    unfolding turn pull_msg
    turn-replay m c q runs plan h = ap (with_msg runs_after m) (handle-plain m c q runs plan h)

    turn-plan :
        (i : PlanItem P) (c : List (Msg P)) (runs : Runs D P) (rest : List (PlanItem P))
        → IsPlain (msg_of i)
        → turn runs_after (region c [] runs (i ∷ rest))
          ≡ some (msg_of i, region (c ++ kept (i ∷ [])) [] (runs_after (msg_of i) runs) rest)
    unfolding turn pull_msg
    turn-plan (bare m) c runs rest h = elim (Bool-cases (is_cacheable m)) [
      | inl e ↦ rw e (ap (with_msg runs_after m) (handle-plain m (c ++ m ∷ []) [] runs rest h))
      | inr e ↦
          rw e
            (ap (with_msg runs_after m) (handle-plain m c [] runs rest h) ∙ rw (append-nil c) refl)
    ]
    turn-plan (respond m) c runs rest h =
        ap (with_msg runs_after m) (handle-plain m c [] runs rest h) ∙ rw (append-nil c) refl

    -- n turns on the replay queue, and n turns on the plan.
    turns-replay :
        (ms c q : List (Msg P)) (runs : Runs D P) (plan : List (PlanItem P))
        → All IsPlain ms
        → (runs' : Runs D P) × (turns runs_after (length ms) (region c (ms ++ q) runs plan)
            ≡ some (ms, region c q runs' plan))
    unfolding turns
    turns-replay [] c q runs plan h = (runs, refl)
    turns-replay (m ∷ ms) c q runs plan h =
        let (runs', e) = turns-replay ms c q (runs_after m runs) plan h.1 in
        (
          runs',
          ap (λ t. chain runs_after t (turns runs_after (length ms)))
                (turn-replay m c (ms ++ q) runs plan h.0)
              ∙ ap (add_turn runs_after m) e,
        )

    turns-plan :
        (items : List (PlanItem P)) (c : List (Msg P)) (runs : Runs D P) (rest : List (PlanItem P))
        → All (λ i. IsPlain (msg_of i)) items
        → (runs' : Runs D P) × (turns runs_after (length items) (region c [] runs (items ++ rest))
            ≡ some (map msg_of items, region (c ++ kept items) [] runs' rest))
    unfolding turns
    turns-plan [] c runs rest h = (runs, rw (append-nil c) refl)
    turns-plan (i ∷ items) c runs rest h =
        let (runs', e) =
          turns-plan items (c ++ kept (i ∷ [])) (runs_after (msg_of i) runs) rest h.1 in
        (
          runs',
          ap (λ t. chain runs_after t (turns runs_after (length items)))
                (turn-plan i c runs (items ++ rest) h.0)
              ∙ ap (add_turn runs_after (msg_of i)) e
              ∙ ap (λ k. some (msg_of i ∷ map msg_of items, region k [] runs' rest))
                  (append_assoc c (kept (i ∷ [])) (kept items) ∙ ap (◌++◌ c) (kept-cons i items)),
        )

    pull_msg-bare :
        (m : Msg P) (c : List (Msg P)) (runs : Runs D P) (rest : List (PlanItem P))
        → is_cacheable m ≡ true
        → pull_msg (region c [] runs (bare m ∷ rest)) ≡ (region (c ++ m ∷ []) [] runs rest, some m)
    unfolding pull_msg
    pull_msg-bare m c runs rest h = rw h refl

    -- A resume replays what the pause interrupted: from a checkpoint on, the loop handles `items` and
    -- pulls the message `m`, the pause cancels `m`, and after the resume the loop handles again
    -- exactly the cacheable messages of `items` whose sender waits for no result, and `m`, in order,
    -- and then goes on with the rest of the plan. No message of `items` and not `m` is a commit point,
    -- and `m` is cacheable.
    pub on_resume-replays :
        (items : List (PlanItem P)) (m : Msg P) (rest : List (PlanItem P)) (runs : Runs D P)
        → All (λ i. IsPlain (msg_of i)) items
        → IsPlain m
        → is_cacheable m ≡ true
        → (before paused after : Region D P) × (turns runs_after
              (length items)
              (region [] [] runs (items ++ bare m ∷ rest))
            ≡ some (map msg_of items, before))
          × (pull_msg before ≡ (paused, some m))
          × (turns runs_after (length (kept items ++ m ∷ [])) (on_resume paused)
              ≡ some (kept items ++ m ∷ [], after))
          × (after.replay_queue ≡ [])
          × (after.plan ≡ rest)
    unfolding on_resume
    on_resume-replays items m rest runs h hm k =
        let (r1, e1) = turns-plan items [] runs (bare m ∷ rest) h in
        let again = kept items ++ m ∷ [] in
        let (r2, e2) =
          turns-replay again [] [] (rewind_runs again r1) rest
            (All-append IsPlain (kept items) (m ∷ []) (kept-IsPlain items h) (hm, tt)) in
        (
          region (kept items) [] r1 (bare m ∷ rest),
          region again [] r1 rest,
          region [] [] r2 rest,
          e1,
          pull_msg-bare m (kept items) r1 rest k,
          ap (λ q. turns runs_after (length again) (region [] q (rewind_runs again r1) rest))
                (sym (append-nil again))
              ∙ e2,
          refl,
          refl,
        )

    -- A pause that lands during a replay loses a message: the loop replays `done` of a queue and
    -- pulls its next message `m`, the pause cancels `m`, and what is left to handle after the resume
    -- is the rest of the queue and the plan, without `m`.
    pub on_resume-loses_replayed :
        (done : List (Msg P)) (m : Msg P) (queue : List (Msg P)) (plan : List (PlanItem P))
        (runs : Runs D P)
        → All IsPlain done
        → (before paused : Region D P) × (turns runs_after
              (length done)
              (region [] (done ++ m ∷ queue) runs plan)
            ≡ some (done, before))
          × (pull_msg before ≡ (paused, some m))
          × ((on_resume paused).msg_cache ≡ [])
          × ((on_resume paused).replay_queue ≡ queue)
          × ((on_resume paused).plan ≡ plan)
    unfolding on_resume pull_msg
    on_resume-loses_replayed done m queue plan runs h =
        let (r1, e1) = turns-replay done [] (m ∷ queue) runs plan h in
        (
          region [] (m ∷ queue) r1 plan,
          region [] queue r1 plan,
          e1,
          refl,
          refl,
          append-nil queue,
          refl,
        )
