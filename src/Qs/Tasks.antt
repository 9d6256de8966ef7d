-- ===== src/Qs/Tasks.antt =====
-- crates/bsrs/src/qs/tasks.rs: the tracker of background tasks.
-- The entry's `started_at`, which the code never reads, is left out. Each operation holds the
-- tracker's lock, so it is one step.
pub mod Eviction
pub mod Newest
pub mod Polling
use bsrs.Prelude.{
  ℕ, Bool, true, false, String, Option, none, some, List, [], ◌∷◌, ◌++◌, if◌then◌else◌, leb, length,
}
use bsrs.Prelude.Maps.{lookup, insert, remove, modify, over}

pub record EvalResult : Type 0 where
  pub stdout : String
  pub return_value : Option String
  pub error : Option String

unfoldable pub is_success : EvalResult → Bool
is_success r = elim r.error [ none ↦ true | some _ ↦ false ]

pub data TaskState : Type 0 where
  running : TaskState
  completed : EvalResult → TaskState

pub record TaskEntry : Type 0 where
  pub state : TaskState
  pub source : String

pub record TaskTracker : Type 0 where
  pub entries : List (String × TaskEntry)
  pub order : List String

abbrev pub max_tasks : ℕ
max_tasks = 256

unfoldable pub new : TaskTracker
new = record { entries = []; order = [] }

-- `if let Some(old) = order.pop_front() { entries.remove(&old) }`
evict_front : TaskTracker → List String → TaskTracker
evict_front t [] = t
evict_front t (old ∷ rest) = record { entries = remove old t.entries; order = rest }

unfoldable pub make_room : TaskTracker → TaskTracker
unfolding evict_front
make_room t = if leb max_tasks (length t.entries) then evict_front t t.order else t

unfoldable pub start : TaskTracker → String → String → TaskTracker
unfolding make_room
start t uid source_method =
    let t' = make_room t in
    record {
      entries = insert uid (record { state = running; source = source_method }) t'.entries;
      order = t'.order ++ uid ∷ [];
    }

unfoldable pub source_method : TaskTracker → String → Option String
source_method t uid = over (λ e. e.source) (lookup uid t.entries)

unfoldable pub complete : TaskTracker → String → EvalResult → TaskTracker
complete t uid result = record t {
  entries = modify uid (λ e. record e { state = completed result }) t.entries;
}

abbrev status_of : TaskState → String
status_of running = "running"
status_of (completed r) = if is_success r then "completed" else "failed"

unfoldable pub status : TaskTracker → String → Option String
status t uid = over (λ e. status_of e.state) (lookup uid t.entries)

abbrev result_of : TaskState → Option EvalResult
result_of running = none
result_of (completed r) = some r

unfoldable pub result : TaskTracker → String → Option EvalResult
result t uid = elim (lookup uid t.entries) [ none ↦ none | some e ↦ result_of e.state ]
