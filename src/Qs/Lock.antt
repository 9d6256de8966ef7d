-- ===== src/Qs/Lock.antt =====
-- The lock of the queue server: `lock_check`, `lock_apply` and `lock_release` of
-- crates/bsrs/src/qs/dispatch.rs. `hash_key` is std's hash of a key; a fresh UUID and the time are
-- arguments. A constructor of `LockError` is the message of an `err` response.
pub mod Held
use bsrs.Prelude.{
  ℕ, Bool, true, false, not, ◌&&◌, ◌||◌, String, Option, none, some, List, [], ◌∷◌, ◌==◌,
  if◌then◌else◌, any, str_eq,
}
use text.Mathlib.Text.{starts_with}
use bsrs.Qs.Json.{Json, str_param, flag_param}
use bsrs.Qs.State.{LockInfo, lock, clear, is_locked}

pub data LockError : Type 0 where
  missing_lock_key nothing_to_lock already_locked key_mismatch : LockError

pub data Outcome : Type 0 where
  ok : Outcome
  err : LockError → Outcome

abbrev pub is_one_of : String → List String → Bool
is_one_of m names = any (λ n. str_eq m n) names

-- The methods that no lock stops.
unfoldable pub always_allowed : String → Bool
always_allowed m = is_one_of m (
    "ping" ∷ "status" ∷ "config_get" ∷ "queue_get" ∷ "history_get" ∷ "lock_info" ∷ "plans_allowed"
    ∷ "plans_existing" ∷ "devices_allowed" ∷ "devices_existing" ∷ "re_runs" ∷ "re_metadata"
    ∷ "task_status" ∷ "task_result" ∷ "manager_test" ∷ [])

unfoldable pub env_method : String → Bool
env_method m =
    is_one_of m
      ("environment_open" ∷ "environment_close" ∷ "environment_destroy" ∷ "environment_update" ∷ [])

unfoldable pub queue_method : String → Bool
queue_method m = starts_with m "queue_" || (starts_with m "history_" || starts_with m "re_")

abbrev pub same_hash : Option ℕ → Option ℕ → Bool
same_hash none none = true
same_hash (some a) (some b) = a == b
same_hash _ _ = false

module _ (J : Json) (hash_key : String → ℕ) where
  -- `params.get("lock_key")…map(hash_key)`
  abbrev pub supplied_hash : J.Value → Option ℕ
  supplied_hash params = elim (str_param J params "lock_key") [
    | none ↦ none
    | some k ↦ some (hash_key k)
  ]

  unfoldable pub lock_check : String → LockInfo → J.Value → Bool
  lock_check method l params =
      if always_allowed method
      then true
      else if not (is_locked l)
      then true
      else if str_eq method "unlock"
      then same_hash (supplied_hash params) l.key_hash
      else if not ((l.environment && env_method method) || (l.queue && queue_method method))
      then true
      else same_hash (supplied_hash params) l.key_hash

  -- `st.lock.is_locked() && st.lock.key_hash != Some(hash_key(key))`
  abbrev pub other_key : String → LockInfo → Bool
  other_key key l = is_locked l && not (same_hash l.key_hash (some (hash_key key)))

  unfoldable pub lock_apply : String → String → LockInfo → J.Value → LockInfo × Outcome
  lock_apply fresh now l params = elim (str_param J params "lock_key") [
    | none ↦ (l, err missing_lock_key)
    | some key ↦
        let env = flag_param J params "environment" in
        let queue = flag_param J params "queue" in
        if not env && not queue
        then (l, err nothing_to_lock)
        else if other_key key l
        then (l, err already_locked)
        else (
          lock fresh now env queue (str_param J params "user") (str_param J params "note")
              (hash_key key) l,
          ok,
        )
  ]

  unfoldable pub lock_release : String → LockInfo → J.Value → LockInfo × Outcome
  lock_release fresh l params = elim (str_param J params "lock_key") [
    | none ↦ (l, err missing_lock_key)
    | some key ↦ if other_key key l then (l, err key_mismatch) else (clear fresh l, ok)
  ]
