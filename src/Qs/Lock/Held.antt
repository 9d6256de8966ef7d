-- ===== src/Qs/Lock/Held.antt =====
-- What the lock of the queue server (crates/bsrs/src/qs/dispatch.rs) guarantees its holder.
use bsrs.Prelude.{
  ℕ, ◌≡◌, ◌≢◌, refl, ◌∙◌, ap, inl, inr, Bool, true, not, ◌&&◌, ◌||◌, String, some, List, [], ◌∷◌,
  arith, if◌then◌else◌, str_eq, All, Option-cases,
}
use bsrs.Qs.Json.{Json, str_param, flag_param}
use bsrs.Qs.State.{LockInfo, lock, clear, is_locked}
use bsrs.Qs.Lock.{
  ok, always_allowed, env_method, queue_method, lock_check, lock_apply, lock_release, same_hash,
  supplied_hash,
}

-- A lock that the key holds.
pub record HeldBy (hash_key : String → ℕ) (key : String) (l : LockInfo) : Type 0 where
  pub locked : is_locked l ≡ true
  pub by_key : l.key_hash ≡ some (hash_key key)

-- The lock covers the method: it would change what is locked, or is `unlock` itself.
abbrev pub covers : LockInfo → String → Bool
covers l m =
    not (always_allowed m)
    && (str_eq m "unlock" || ((l.environment && env_method m) || (l.queue && queue_method m)))

-- The methods of the dispatcher's match that change the queue, the history or the run, but for
-- `re_metadata`, which no lock stops.
abbrev pub queue_changing : List String
queue_changing =
    "queue_clear" ∷ "queue_item_add" ∷ "queue_item_add_batch" ∷ "queue_item_update"
    ∷ "queue_item_remove" ∷ "queue_item_remove_batch" ∷ "queue_item_move" ∷ "queue_item_move_batch"
    ∷ "queue_item_execute" ∷ "queue_start" ∷ "queue_stop" ∷ "queue_stop_cancel" ∷ "queue_autostart"
    ∷ "queue_mode_set" ∷ "history_clear" ∷ "re_pause" ∷ "re_resume" ∷ "re_abort" ∷ "re_halt"
    ∷ "re_stop" ∷ []

abbrev is_gated : String → Bool
is_gated m = not (always_allowed m) && queue_method m

abbrev all_gated : List String → Bool
all_gated [] = true
all_gated (m ∷ ms) = is_gated m && all_gated ms

module _ (J : Json) (hash_key : String → ℕ) (key : String) where
  -- While a key holds the lock, a method passes the gate exactly when the lock does not cover it
  -- or the request supplies a key with the holder's hash.
  pub lock_check-HeldBy :
      (m : String) (l : LockInfo) (params : J.Value)
      → HeldBy hash_key key l
      → lock_check J hash_key m l params
        ≡ (not (covers l m) || same_hash (supplied_hash J hash_key params) (some (hash_key key)))
  unfolding lock_check
  lock_check-HeldBy m l params h = ground (arith, h.locked, h.by_key)

  -- One request to the dispatcher, as far as the lock goes.
  unfoldable pub request : String → String → String → LockInfo → J.Value → LockInfo
  request fresh now m l params =
      if lock_check J hash_key m l params
      then if str_eq m "lock"
        then (lock_apply J hash_key fresh now l params).0
        else if str_eq m "unlock"
        then (lock_release J hash_key fresh l params).0
        else l
      else l

  -- The request does not know the key, nor one that the hash confuses with it.
  abbrev pub Ignorant : J.Value → Type 0
  Ignorant params =
      (k : String) → str_param J params "lock_key" ≡ some k → hash_key k ≢ hash_key key

  Ignorant-request :
      (fresh now m : String) (l : LockInfo) (params : J.Value)
      → HeldBy hash_key key l
      → Ignorant params
      → request fresh now m l params ≡ l
  unfolding request lock_check lock_apply lock_release
  Ignorant-request fresh now m l params h i = elim (Option-cases (str_param J params "lock_key")) [
    | inl e ↦ ground (arith, h.locked, h.by_key)
    | inr x ↦ let (k, e) = x in ground (arith, h.locked, h.by_key, i k e)
  ]

  -- A request: the UUID and the time that it would draw, its method and its parameters.
  pub record Request : Type 0 where
    pub fresh : String
    pub now : String
    pub method : String
    pub params : J.Value

  unfoldable pub requests : LockInfo → List Request → LockInfo
  requests l [] = l
  requests l (r ∷ rs) = requests (request r.fresh r.now r.method l r.params) rs

  -- While a key holds the lock, nobody else can change it: after any sequence of requests, of
  -- whatever methods, none of which supplies a key with the holder's hash, the lock is exactly what
  -- it was.
  pub requests-lock_held :
      (l : LockInfo) (rs : List Request)
      → HeldBy hash_key key l
      → All (λ r. Ignorant r.params) rs
      → requests l rs ≡ l
  unfolding requests
  requests-lock_held l [] h i = refl
  requests-lock_held l (r ∷ rs) h i =
      let same = Ignorant-request r.fresh r.now r.method l r.params h i.0 in
      ap (λ l'. requests l' rs) same ∙ requests-lock_held l rs h i.1

  -- The life of a lock: a successful `lock` with the key leaves the lock held by it, with the
  -- scopes asked for; `unlock` with the key then succeeds, and no method is stopped afterwards.
  pub lock-unlock :
      (f f' now m : String) (l : LockInfo) (p p' any_params : J.Value)
      → str_param J p "lock_key" ≡ some key
      → str_param J p' "lock_key" ≡ some key
      → (lock_apply J hash_key f now l p).1 ≡ ok
      → let l' = (lock_apply J hash_key f now l p).0 in
        let (l'', o) = lock_release J hash_key f' l' p' in
        HeldBy hash_key key l'
        × (l'.environment ≡ flag_param J p "environment")
        × (l'.queue ≡ flag_param J p "queue")
        × (lock_check J hash_key "unlock" l' p' ≡ true)
        × (o ≡ ok)
        × (lock_check J hash_key m l'' any_params ≡ true)
  unfolding lock_apply lock_release lock_check is_locked lock clear
  lock-unlock f f' now m l p p' q e e' o = ground (arith, e, e', o)
