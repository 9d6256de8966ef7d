-- ===== src/Qs/State.antt =====
-- crates/bsrs/src/qs/state.rs: the manager's state machine, the lock and the shared state.
-- A fresh UUID and the time of day are arguments.
use bsrs.Prelude.{ℕ, Bool, false, ◌||◌, String, Option, none, some, List, [], ◌∷◌}
use bsrs.Qs.Queue.{QueuedItem}

pub data EState : Type 0 where
  environment_closed idle executing_queue paused aborting : EState
  creating_environment closing_environment destroying_environment : EState

unfoldable pub as_str : EState → String
as_str environment_closed = "environment_closed"
as_str idle = "idle"
as_str executing_queue = "executing_queue"
as_str paused = "paused"
as_str aborting = "aborting"
as_str creating_environment = "creating_environment"
as_str closing_environment = "closing_environment"
as_str destroying_environment = "destroying_environment"

pub record LockInfo : Type 0 where
  pub queue : Bool
  pub environment : Bool
  pub user : Option String
  pub note : Option String
  pub time : Option String
  pub uid : String
  pub key_hash : Option ℕ

unfoldable pub unlocked : String → LockInfo
unlocked fresh = record {
  queue = false;
  environment = false;
  user = none;
  note = none;
  time = none;
  uid = fresh;
  key_hash = none;
}

-- `LockInfo::lock`
unfoldable pub lock :
    String → String → Bool → Bool → Option String → Option String → ℕ → LockInfo → LockInfo
lock fresh now environment queue user note key_hash l = record l {
  environment = environment;
  queue = queue;
  user = user;
  note = note;
  time = some now;
  key_hash = some key_hash;
  uid = fresh;
}

-- `LockInfo::clear`
unfoldable pub clear : String → LockInfo → LockInfo
clear fresh l = record l {
  environment = false;
  queue = false;
  user = none;
  note = none;
  time = none;
  key_hash = none;
  uid = fresh;
}

unfoldable pub is_locked : LockInfo → Bool
is_locked l = l.environment || l.queue

pub record EngineState (V : Type 0) : Type 0 where
  pub state : Option EState
  pub current_run_uid : Option String
  pub current_item : Option (QueuedItem V)
  pub queue_len : ℕ
  pub history_len : ℕ
  pub plans_run : ℕ
  pub plans_failed : ℕ
  pub re_runs : List (String × Bool)
  pub re_metadata : List (String × V)
  pub queue_stop_pending : Bool
  pub pause_pending : Bool
  pub worker_background_tasks : ℕ
  pub queue_autostart_enabled : Bool
  pub queue_mode : List (String × V)
  pub lock_info : LockInfo

-- `EngineState::initial`, with `json!(false)` and the UUID of its lock given.
unfoldable pub initial : {V : Type 0} → V → String → EngineState V
unfolding unlocked
initial json_false fresh = record {
  state = some environment_closed;
  current_run_uid = none;
  current_item = none;
  queue_len = 0;
  history_len = 0;
  plans_run = 0;
  plans_failed = 0;
  re_runs = [];
  re_metadata = [];
  queue_stop_pending = false;
  pause_pending = false;
  worker_background_tasks = 0;
  queue_autostart_enabled = false;
  queue_mode = ("loop", json_false) ∷ [];
  lock_info = unlocked fresh;
}
