-- ===== src/Qs/Tasks/Polling.antt =====
-- What a client of the tracker (crates/bsrs/src/qs/tasks.rs) reads by `status` and `result`.
use bsrs.Prelude.{
  ◌≡◌, true, false, String, some, arith, if◌then◌else◌, str_eq, Option-cases, inl, inr,
}
use bsrs.Prelude.Maps.{lookup, lookup-modify, over}
use bsrs.Qs.Tasks.{
  EvalResult, TaskEntry, TaskTracker, completed, is_success, complete, status, result,
  source_method,
}

-- `complete` sets the outcome of a tracked task alone: of every uid, the status, the result and the
-- originating method afterwards are these; an unknown uid stays unknown.
pub complete-reads :
    (t : TaskTracker) (uid k : String) (r : EvalResult)
    → let t' = complete t uid r in
      let tracked =
        over (λ (m : String). if str_eq uid k then true else false) (source_method t k) in
      (status t' k ≡ elim tracked [
        | some true ↦ some (if is_success r then "completed" else "failed")
        | _ ↦ status t k
      ])
      × (result t' k ≡ elim tracked [ some true ↦ some r | _ ↦ result t k ])
      × (source_method t' k ≡ source_method t k)
unfolding complete status result source_method
complete-reads t uid k r =
    let f : TaskEntry → TaskEntry = λ e. record e { state = completed r } in
    elim (Option-cases (lookup k t.entries)) [
      | inl e ↦ ground (arith, lookup-modify uid k f t.entries)
      | inr x ↦ let (y, e) = x in ground (arith, lookup-modify uid k f t.entries)
    ]
