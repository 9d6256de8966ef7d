-- ===== src/Qs/Permissions/Decide.antt =====
-- Who may call what, under the access control of crates/bsrs/src/qs/permissions.rs.
use bsrs.Prelude.{
  ◌≡◌, refl, ◌⊎◌, ◌↔◌, inl, inr, Bool, true, false, ◌&&◌, ◌≢◌, String, some, List, [], ◌∷◌, arith,
  All, Option-cases, Bool-cases,
}
use bsrs.Prelude.Maps.{lookup}
use bsrs.Qs.Permissions.{
  is_info, is_queue_add, is_queue_mutate, is_admin_method, MethodClass, info, queue_add,
  queue_mutate, admin, lock, unknown, classify, RegexApi, GroupPolicy, Permissions, ok,
  plan_allowed, matches_any, check_plans, by_class, check_names,
}

-- The methods of the dispatcher's match that change the queue, its history, the environment, the
-- engine or the manager, or run code, in the order of the match. `lock` and `unlock` have a check of
-- their own.
abbrev pub changing : List String
changing =
    "environment_open" ∷ "environment_close" ∷ "environment_destroy" ∷ "queue_clear"
    ∷ "queue_item_add" ∷ "queue_item_add_batch" ∷ "queue_item_update" ∷ "queue_item_remove"
    ∷ "queue_item_remove_batch" ∷ "queue_item_move" ∷ "queue_item_move_batch" ∷ "queue_item_execute"
    ∷ "queue_start" ∷ "queue_stop" ∷ "queue_stop_cancel" ∷ "queue_autostart" ∷ "queue_mode_set"
    ∷ "history_clear" ∷ "re_pause" ∷ "re_resume" ∷ "re_abort" ∷ "re_halt" ∷ "re_stop"
    ∷ "re_metadata" ∷ "lua_eval" ∷ "permissions_reload" ∷ "manager_stop" ∷ "function_execute" ∷ []

abbrev is_guarded : MethodClass → Bool
is_guarded queue_add = true
is_guarded queue_mutate = true
is_guarded admin = true
is_guarded _ = false

abbrev all_guarded : List String → Bool
all_guarded [] = true
all_guarded (m ∷ ms) = is_guarded (classify m) && all_guarded ms

changing-guarded : all_guarded changing ≡ true
unfolding classify is_info is_queue_add is_queue_mutate is_admin_method
changing-guarded = refl

module _ (X : RegexApi) where
  -- Some pattern of the list matches the name.
  abbrev pub SomeMatches : List X.Regex → String → Type 0
  SomeMatches [] name = ⊥
  SomeMatches (r ∷ rs) name = (X.is_match r name ≡ true) ⊎ SomeMatches rs name

  abbrev pub MayRun : GroupPolicy X.Regex → String → Type 0
  MayRun p name = SomeMatches p.allowed_plans name

  -- What a group's policy grants, class by class.
  abbrev pub Grants : MethodClass → GroupPolicy X.Regex → List String → Type 0
  Grants info p names = Unit
  Grants lock p names = Unit
  Grants unknown p names = Unit
  Grants queue_add p names = (p.read_only ≡ false) × All (MayRun p) names
  Grants queue_mutate p names = p.read_only ≡ false
  Grants admin p names = p.admin ≡ true

  -- The request is allowed: nothing is enforced, or the caller's group is configured and grants it.
  abbrev pub Allowed : Permissions X.Regex → String → List String → String → Type 0
  Allowed g method names group =
      (g.enforced ≡ false)
      ⊎ ((p : GroupPolicy X.Regex) × (lookup group g.groups ≡ some p)
          × Grants (classify method) p names)

  matches→ : (rs : List X.Regex) (n : String) → matches_any X rs n ≡ true → SomeMatches rs n
  matches→ [] n h = cc
  matches→ (r ∷ rs) n h = elim (Bool-cases (X.is_match r n)) [
    | inl e ↦ inl e
    | inr e ↦ inr (matches→ rs n (ground (arith, e)))
  ]

  matches← : (rs : List X.Regex) (n : String) → SomeMatches rs n → matches_any X rs n ≡ true
  matches← [] n h = absurd h
  matches← (r ∷ rs) n (inl e) = ground arith
  matches← (r ∷ rs) n (inr h) = ground (arith, matches← rs n h)

  plans→ :
      (p : GroupPolicy X.Regex) (group : String) (names : List String)
      → check_plans X p group names ≡ ok
      → All (MayRun p) names
  unfolding check_plans plan_allowed
  plans→ p group [] h = tt
  plans→ p group (n ∷ ns) h = elim (Bool-cases (matches_any X p.allowed_plans n)) [
    | inl e ↦ (matches→ p.allowed_plans n e, plans→ p group ns (ground (arith, e)))
    | inr e ↦ absurd (ground (arith, e))
  ]

  plans← :
      (p : GroupPolicy X.Regex) (group : String) (names : List String)
      → All (MayRun p) names
      → check_plans X p group names ≡ ok
  unfolding check_plans plan_allowed
  plans← p group [] h = refl
  plans← p group (n ∷ ns) h = ground (arith, matches← p.allowed_plans n h.0, plans← p group ns h.1)

  by_class→ :
      (c : MethodClass) (p : GroupPolicy X.Regex) (m group : String) (names : List String)
      → by_class X c p m names group ≡ ok
      → Grants c p names
  unfolding by_class
  by_class→ info p m group names h = tt
  by_class→ lock p m group names h = tt
  by_class→ unknown p m group names h = tt
  by_class→ queue_add p m group names h = elim (Bool-cases p.read_only) [
    | inl e ↦ absurd (ground (arith, e))
    | inr e ↦ (e, plans→ p group names (ground (arith, e)))
  ]
  by_class→ queue_mutate p m group names h = ground arith
  by_class→ admin p m group names h = ground arith

  by_class← :
      (c : MethodClass) (p : GroupPolicy X.Regex) (m group : String) (names : List String)
      → Grants c p names
      → by_class X c p m names group ≡ ok
  unfolding by_class
  by_class← info p m group names h = refl
  by_class← lock p m group names h = refl
  by_class← unknown p m group names h = refl
  by_class← queue_add p m group names h = ground (arith, h.0, plans← p group names h.1)
  by_class← queue_mutate p m group names h = rw h
  by_class← admin p m group names h = rw h

  -- Given the class of the method, `check` admits a request exactly when it is allowed: nothing is
  -- enforced, or the caller's group is configured and its policy grants that class, for every plan
  -- that the request names. A class of its own is granted by its own flag alone: a group that is
  -- both read-only and admin may call the admin methods, and an unknown method passes.
  pub check_names-decides :
      (g : Permissions X.Regex) (method group : String) (names : List String)
      → (check_names X g method names group ≡ ok) ↔ Allowed g method names group
  unfolding check_names
  check_names-decides g method group names = (forth, back)
    where
      forth : check_names X g method names group ≡ ok → Allowed g method names group
      forth h = elim (Bool-cases g.enforced) [
        | inr e ↦ inl e
        | inl e ↦ elim (Option-cases (lookup group g.groups)) [
          | inl n ↦ absurd (ground (arith, e, n))
          | inr x ↦
              let (p, found) = x in
              inr (
                p,
                found,
                by_class→ (classify method) p method group names (ground (arith, e, found)),
              )
        ]
      ]

      back : Allowed g method names group → check_names X g method names group ≡ ok
      back (inl e) = ground arith
      back (inr (p, found, h)) =
          ground (arith, found, by_class← (classify method) p method group names h)

  by_class-guarded :
      (c : MethodClass) (p : GroupPolicy X.Regex) (m group : String) (names : List String)
      → p.read_only ≡ true
      → p.admin ≡ false
      → is_guarded c ≡ true
      → by_class X c p m names group ≢ ok
  unfolding by_class
  by_class-guarded queue_add p m group names r a h = ground (arith, r)
  by_class-guarded queue_mutate p m group names r a h = ground (arith, r)
  by_class-guarded admin p m group names r a h = ground (arith, a)
  by_class-guarded info p m group names r a h = absurd (ground (arith, h))
  by_class-guarded lock p m group names r a h = absurd (ground (arith, h))
  by_class-guarded unknown p m group names r a h = absurd (ground (arith, h))

  -- A read-only group that is not admin changes nothing: of the methods that the dispatcher knows,
  -- each that changes the queue, the history, the environment, the engine or the manager, or runs
  -- code, is refused to it, whatever plans the request names. `lock` and `unlock` are not among
  -- them.
  pub read_only-refused :
      (g : Permissions X.Regex) (group : String) (p : GroupPolicy X.Regex) (names : List String)
      → g.enforced ≡ true
      → lookup group g.groups ≡ some p
      → p.read_only ≡ true
      → p.admin ≡ false
      → All (λ m. check_names X g m names group ≢ ok) changing
  unfolding check_names
  read_only-refused g group p names e f r a = each changing changing-guarded
    where
      one : (m : String) → is_guarded (classify m) ≡ true → check_names X g m names group ≢ ok
      one m h = ground (arith, e, f, by_class-guarded (classify m) p m group names r a h)

      each :
          (ms : List String)
          → all_guarded ms ≡ true
          → All (λ m. check_names X g m names group ≢ ok) ms
      each [] h = tt
      each (m ∷ ms) h = (one m (ground (arith, h)), each ms (ground (arith, h)))
