-- ===== src/Qs/Permissions.antt =====
-- crates/bsrs/src/qs/permissions.rs: role-based access control.
-- The crate `regex` is a parameter: `compile` is `Regex::new`, which may refuse, and `is_match`.
-- A constructor of `Denial` or `LoadError` is the message of a returned `Err`.
pub mod Decide
pub mod Loading
use bsrs.Prelude.{
  ℕ, Bool, true, false, not, String, Option, none, some, List, [], ◌∷◌, ◌++◌, filter, if◌then◌else◌,
  any, str_eq,
}
use bsrs.Prelude.Maps.{lookup, insert}
use bsrs.Qs.Json.{Json, str_param, array_param}
use bsrs.Qs.Lock.{is_one_of}

pub data MethodClass : Type 0 where
  info queue_add queue_mutate admin lock unknown : MethodClass

unfoldable pub is_info : String → Bool
is_info m = is_one_of m (
    "ping" ∷ "status" ∷ "config_get" ∷ "queue_get" ∷ "history_get" ∷ "plans_allowed"
    ∷ "plans_existing" ∷ "devices_allowed" ∷ "devices_existing" ∷ "device_inspect" ∷ "lock_info"
    ∷ "task_status" ∷ "task_result" ∷ "permissions_get" ∷ "manager_test" ∷ "manager_version"
    ∷ "re_runs" ∷ [])

unfoldable pub is_queue_add : String → Bool
is_queue_add m =
    is_one_of m
      ("queue_item_add" ∷ "queue_item_add_batch" ∷ "queue_item_execute" ∷ "queue_item_update" ∷ [])

unfoldable pub is_queue_mutate : String → Bool
is_queue_mutate m = is_one_of m (
    "queue_item_remove" ∷ "queue_item_remove_batch" ∷ "queue_item_move" ∷ "queue_item_move_batch"
    ∷ "queue_clear" ∷ "queue_start" ∷ "queue_stop" ∷ "queue_stop_cancel" ∷ "queue_autostart"
    ∷ "queue_mode_set" ∷ "history_clear" ∷ "environment_open" ∷ "environment_close"
    ∷ "environment_destroy" ∷ "environment_update" ∷ "re_pause" ∷ "re_resume" ∷ "re_abort"
    ∷ "re_halt" ∷ "re_stop" ∷ "re_metadata" ∷ "re_runs_clear" ∷ [])

unfoldable pub is_admin_method : String → Bool
is_admin_method m = is_one_of m (
    "permissions_reload" ∷ "permissions_set" ∷ "manager_stop" ∷ "manager_kill" ∷ "script_upload"
    ∷ "function_execute" ∷ "kernel_interrupt" ∷ "lua_eval" ∷ [])

unfoldable pub classify : String → MethodClass
unfolding is_info is_queue_add is_queue_mutate is_admin_method
classify m =
    if is_info m
    then info
    else if is_queue_add m
    then queue_add
    else if is_queue_mutate m
    then queue_mutate
    else if is_admin_method m
    then admin
    else if is_one_of m ("lock" ∷ "unlock" ∷ [])
    then lock
    else unknown

pub record RegexApi : Type 1 where
  pub Regex : Type 0
  pub compile : String → Option Regex
  pub is_match : Regex → String → Bool

pub record GroupFile : Type 0 where
  pub read_only : Bool
  pub admin : Bool
  pub allowed_plans : List String
  pub allowed_devices : List String

pub record PermissionsFile : Type 0 where
  pub default_group : Option String
  pub user_groups : List (String × GroupFile)
  pub api_keys : List (String × String)

pub record GroupPolicy (R : Type 0) : Type 0 where
  pub read_only : Bool
  pub admin : Bool
  pub allowed_plans : List R
  pub allowed_devices : List R

-- `Inner`, the state behind the lock.
pub record Permissions (R : Type 0) : Type 0 where
  pub enforced : Bool
  pub default_group : String
  pub groups : List (String × GroupPolicy R)
  pub api_keys : List (String × String)
  pub path : Option String

pub data Denial : Type 0 where
  not_configured : String → Denial
  read_only_group : String → String → Denial
  plan_not_allowed : String → String → Denial
  not_admin : String → String → Denial

pub data Verdict : Type 0 where
  ok : Verdict
  err : Denial → Verdict

module _ (X : RegexApi) where
  -- `iter().any(|r| r.is_match(name))`
  abbrev pub matches_any : List X.Regex → String → Bool
  matches_any rs name = any (λ r. X.is_match r name) rs

  unfoldable pub plan_allowed : GroupPolicy X.Regex → String → Bool
  plan_allowed p name = matches_any p.allowed_plans name

  unfoldable pub device_allowed : GroupPolicy X.Regex → String → Bool
  device_allowed p name = matches_any p.allowed_devices name

  -- The two preset groups, with the compiled `.*`.
  unfoldable pub permissive : X.Regex → Permissions X.Regex
  permissive anything =
      let group : Bool → GroupPolicy X.Regex = λ is_admin. record {
        read_only = false;
        admin = is_admin;
        allowed_plans = anything ∷ [];
        allowed_devices = anything ∷ [];
      } in
      record {
        enforced = false;
        default_group = "primary";
        groups = ("root", group true) ∷ ("primary", group false) ∷ [];
        api_keys = [];
        path = none;
      }

  -- The first plan that the policy refuses decides.
  unfoldable pub check_plans : GroupPolicy X.Regex → String → List String → Verdict
  check_plans p group [] = ok
  check_plans p group (name ∷ names) =
      if not (plan_allowed p name)
      then err (plan_not_allowed group name)
      else check_plans p group names

  unfoldable pub by_class :
      MethodClass → GroupPolicy X.Regex → String → List String → String → Verdict
  unfolding check_plans
  by_class info p method names group = ok
  by_class lock p method names group = ok
  by_class unknown p method names group = ok
  by_class queue_add p method names group =
      if p.read_only then err (read_only_group group method) else check_plans p group names
  by_class queue_mutate p method names group =
      if p.read_only then err (read_only_group group method) else ok
  by_class admin p method names group = if p.admin then ok else err (not_admin group method)

  -- `check`, with the plan names of the request.
  unfoldable pub check_names : Permissions X.Regex → String → List String → String → Verdict
  unfolding by_class
  check_names g method names group = if not g.enforced then ok else elim (lookup group g.groups) [
    | none ↦ err (not_configured group)
    | some policy ↦ by_class (classify method) policy method names group
  ]

  unfoldable pub filter_plans_for_group : Permissions X.Regex → String → List String → List String
  filter_plans_for_group g group names =
      if not g.enforced then names else elim (lookup group g.groups) [
        | some policy ↦ filter (plan_allowed policy) names
        | none ↦ names
      ]

  unfoldable pub filter_devices_for_group : Permissions X.Regex → String → List String → List String
  filter_devices_for_group g group names =
      if not g.enforced then names else elim (lookup group g.groups) [
        | some policy ↦ filter (device_allowed policy) names
        | none ↦ names
      ]

  unfoldable pub is_admin : Permissions X.Regex → String → Bool
  is_admin g group =
      if not g.enforced
      then true
      else elim (lookup group g.groups) [ none ↦ false | some p ↦ p.admin ]

-- The compiled policy of a group, or nothing where a pattern does not compile.
module _ (X : RegexApi) where
  unfoldable pub compile_all : List String → Option (List X.Regex)
  compile_all [] = some []
  compile_all (s ∷ ss) = elim (X.compile s) [
    | none ↦ none
    | some r ↦ elim (compile_all ss) [ none ↦ none | some rs ↦ some (r ∷ rs) ]
  ]

  unfoldable pub from_file : GroupFile → Option (GroupPolicy X.Regex)
  unfolding compile_all
  from_file g = elim (compile_all g.allowed_plans) [
    | none ↦ none
    | some plans ↦ elim (compile_all g.allowed_devices) [
      | none ↦ none
      | some devices ↦ some (record {
        read_only = g.read_only;
        admin = g.admin;
        allowed_plans = plans;
        allowed_devices = devices;
      })
    ]
  ]

  unfoldable pub load_groups :
      List (String × GroupFile)
      → List (String × GroupPolicy X.Regex)
      → Option (List (String × GroupPolicy X.Regex))
  load_groups [] groups = some groups
  load_groups ((name, g) ∷ rest) groups = elim (from_file g) [
    | none ↦ none
    | some policy ↦ load_groups rest (insert name policy groups)
  ]

  abbrev or_primary : Option String → String
  or_primary none = "primary"
  or_primary (some g) = g

  -- `load_from_file` once the file is read and parsed; `none` is its `Err`.
  unfoldable pub load_parsed : String → PermissionsFile → Option (Permissions X.Regex)
  unfolding load_groups
  load_parsed path file =
      let default_group = or_primary file.default_group in
      elim (load_groups file.user_groups []) [
        | none ↦ none
        | some groups ↦ elim (lookup default_group groups) [
          | none ↦ none
          | some _ ↦ some (record {
            enforced = true;
            default_group = default_group;
            groups = groups;
            api_keys = file.api_keys;
            path = some path;
          })
        ]
      ]

  -- `reload`; `read_file` reads and parses the file at a path, or fails. `true` is its `Ok`.
  unfoldable pub reload :
      (String → Option PermissionsFile) → Permissions X.Regex → Permissions X.Regex × Bool
  unfolding load_parsed
  reload read_file g = elim g.path [
    | none ↦ (g, false)
    | some path ↦ elim (read_file path) [
      | none ↦ (g, false)
      | some file ↦ elim (load_parsed path file) [ none ↦ (g, false) | some g' ↦ (g', true) ]
    ]
  ]

-- The plan names of a request, and the caller's group.
module _ (J : Json) where
  abbrev name_of : Option J.Value → List String
  name_of none = []
  name_of (some item) = elim (str_param J item "name") [ none ↦ [] | some n ↦ n ∷ [] ]

  names_of : List J.Value → List String
  names_of [] = []
  names_of (it ∷ its) = name_of (some it) ++ names_of its

  abbrev names_of_array : Option (List J.Value) → List String
  names_of_array none = []
  names_of_array (some items) = names_of items

  unfoldable pub plan_names_from_params : J.Value → List String
  unfolding names_of
  plan_names_from_params params =
      name_of (J.get params "item") ++ names_of_array (array_param J params "items")

  unfoldable pub resolve_group : {R : Type 0} → Permissions R → J.Value → String
  resolve_group g params = elim (str_param J params "api_key") [
    | none ↦ g.default_group
    | some key ↦ elim (lookup key g.api_keys) [ none ↦ g.default_group | some group ↦ group ]
  ]

  abbrev pub check : (X : RegexApi) → Permissions X.Regex → String → J.Value → String → Verdict
  check X g method params group = check_names X g method (plan_names_from_params params) group
