-- ===== src/Engine/Msg.antt =====
-- The messages of a plan, of crates/bsrs/src/core/msg.rs.
-- The record `Parts` has what a message carries and the engine hands on: device objects behind
-- `Arc<dyn …>`, all of one type here, callbacks, boxed values, durations, documents.
use bsrs.Prelude.{ℕ, Bool, true, false, String, Option, none, some, List}

pub record Parts : Type 1 where
  pub Object : Type 0
  pub name : Object → String
  pub Value : Type 0
  pub Float : Type 0
  pub Duration : Type 0
  pub Factory : Type 0
  pub Callback : Type 0
  pub Filter : Type 0
  pub Boxed : Type 0
  pub Doc : Type 0
  pub Sink : Type 0
  pub Thrown : Type 0
  pub StreamObjs : Type 0

pub record RunMetadata (P : Parts) : Type 0 where
  pub scan_id : Option ℕ
  pub extra : List (String × P.Value)
  pub plan_name : Option String

pub data Msg (P : Parts) : Type 0 where
  open_run : RunMetadata P → Msg P
  close_run : (exit_status : String) (reason : Option String) → Msg P
  in_run : (run : String) (inner : Msg P) → Msg P
  create : (stream_name : String) → Msg P
  save drop_msg : Msg P
  declare_stream : (stream_name : String) (objs : P.StreamObjs) → Msg P
  read : P.Object → Msg P
  set_msg : (obj : P.Object) (value : P.Float) (group : Option String) → Msg P
  trigger : (obj : P.Object) (group : Option String) → Msg P
  stage unstage : P.Object → Msg P
  stop : (obj : P.Object) (success : Bool) → Msg P
  kickoff complete : (obj : P.Object) (group : Option String) → Msg P
  collect : (obj : P.Object) (stream_name : Option String) → Msg P
  locate : P.Object → Msg P
  monitor : (obj : P.Object) (name : Option String) → Msg P
  unmonitor : P.Object → Msg P
  wait : (group : String) (error_on_timeout : Bool) (timeout : Option P.Duration) → Msg P
  sleep : P.Duration → Msg P
  checkpoint clear_checkpoint : Msg P
  pause : (defer : Bool) → Msg P
  configure : (obj : P.Object) (args : List (String × P.Value)) → Msg P
  prepare : (obj : P.Object) (value : P.Value) (group : Option String) → Msg P
  wait_for : (factories : List P.Factory) (timeout : Option P.Duration) → Msg P
  register_pausable unregister_pausable : P.Object → Msg P
  input : (prompt : String) → Msg P
  re_class : Msg P
  subscribe : (cb : P.Callback) (filter : P.Filter) → Msg P
  unsubscribe : ℕ → Msg P
  fail : String → Msg P
  raise : P.Thrown → Msg P
  resume : Msg P
  install_suspender : (id : ℕ) (suspender : P.Boxed) → Msg P
  remove_suspender : (id : ℕ) → Msg P
  rewindable : Bool → Msg P
  custom : (name : String) (payload : P.Boxed) → Msg P
  publish : P.Doc → Msg P
  push_contingency : P.Sink → Msg P
  pop_contingency null : Msg P

module _ {P : Parts} where
  unfoldable pub is_cacheable : Msg P → Bool
  is_cacheable (in_run run inner) = is_cacheable inner
  is_cacheable (open_run m) = false
  is_cacheable (close_run s r) = false
  is_cacheable (pause d) = false
  is_cacheable resume = false
  is_cacheable checkpoint = false
  is_cacheable clear_checkpoint = false
  is_cacheable (monitor o n) = false
  is_cacheable (unmonitor o) = false
  is_cacheable (install_suspender i s) = false
  is_cacheable (remove_suspender i) = false
  is_cacheable (register_pausable o) = false
  is_cacheable (unregister_pausable o) = false
  is_cacheable (rewindable b) = false
  is_cacheable (custom n p) = false
  is_cacheable (publish d) = false
  is_cacheable (locate o) = false
  is_cacheable (input p) = false
  is_cacheable re_class = false
  is_cacheable (subscribe c f) = false
  is_cacheable (unsubscribe i) = false
  is_cacheable (fail s) = false
  is_cacheable (raise t) = false
  is_cacheable (push_contingency s) = false
  is_cacheable pop_contingency = false
  is_cacheable null = false
  is_cacheable _ = true

  unfoldable pub obj_name : Msg P → Option String
  obj_name (in_run run inner) = obj_name inner
  obj_name (read o) = some (P.name o)
  obj_name (set_msg o v g) = some (P.name o)
  obj_name (trigger o g) = some (P.name o)
  obj_name (locate o) = some (P.name o)
  obj_name (stage o) = some (P.name o)
  obj_name (unstage o) = some (P.name o)
  obj_name (stop o s) = some (P.name o)
  obj_name (kickoff o g) = some (P.name o)
  obj_name (complete o g) = some (P.name o)
  obj_name (collect o s) = some (P.name o)
  obj_name (monitor o n) = some (P.name o)
  obj_name (unmonitor o) = some (P.name o)
  obj_name (configure o a) = some (P.name o)
  obj_name (prepare o v g) = some (P.name o)
  obj_name (register_pausable o) = some (P.name o)
  obj_name (unregister_pausable o) = some (P.name o)
  obj_name _ = none

  -- `in_run`
  unfoldable pub wrap_in_run : String → Msg P → Msg P
  wrap_in_run run inner = in_run run inner
