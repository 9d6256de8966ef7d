-- ===== src/Qs/Permissions/Loading.antt =====
-- Loading and reloading the access control file (crates/bsrs/src/qs/permissions.rs).
use bsrs.Prelude.{
  ◌≡◌, ◌≢◌, refl, ◌⊎◌, inl, inr, true, false, String, Option, none, some, List, [], ◌∷◌, ap, arith,
  Option-cases,
}
use bsrs.Prelude.Maps.{lookup}
use bsrs.Qs.Json.{Json, str_param}
use bsrs.Qs.Permissions.{
  MethodClass, queue_add, classify, RegexApi, GroupPolicy, PermissionsFile, Permissions,
  not_configured, err, by_class, check_names, check_plans, load_parsed, reload, resolve_group,
  check, plan_names_from_params, load_groups,
}

abbrev pub default_of : PermissionsFile → String
default_of file = elim file.default_group [ none ↦ "primary" | some g ↦ g ]

module _ (X : RegexApi) where
  -- What a load yields: an enforced policy whose default group is configured, and its path.
  pub record Loaded (path : String) (g : Permissions X.Regex) : Type 0 where
    pub enforces : g.enforced ≡ true
    pub from_path : g.path ≡ some path
    pub default_policy : GroupPolicy X.Regex
    pub default_found : lookup g.default_group g.groups ≡ some default_policy

  pub load-Loaded :
      (path : String) (file : PermissionsFile) (g : Permissions X.Regex)
      → load_parsed X path file ≡ some g
      → Loaded path g
  unfolding load_parsed
  load-Loaded path file g h = elim (Option-cases (load_groups X file.user_groups [])) [
    | inl e ↦ absurd (ground (arith, e))
    | inr x ↦
        let (gs, e) = x in
        elim (Option-cases (lookup (default_of file) gs)) [
          | inl n ↦ absurd (ground (arith, e, n))
          | inr y ↦
              let (p, found) = y in
              let same : g ≡ result gs = ground (arith, e, found, h) in Loaded_of same p found
        ]
  ]
    where
      result : List (String × GroupPolicy X.Regex) → Permissions X.Regex
      result gs = record {
        enforced = true;
        default_group = default_of file;
        groups = gs;
        api_keys = file.api_keys;
        path = some path;
      }

      Loaded_of :
          {gs : List (String × GroupPolicy X.Regex)}
          → g ≡ result gs
          → (p : GroupPolicy X.Regex) → lookup (default_of file) gs ≡ some p
          → Loaded path g
      Loaded_of e p found = record {
        enforces = ap (λ r. r.enforced) e;
        from_path = ap (λ r. r.path) e;
        default_policy = p;
        default_found = rw e found;
      }

  check_plans-configured :
      (p : GroupPolicy X.Regex) (group k : String) (names : List String)
      → check_plans X p group names ≢ err (not_configured k)
  unfolding check_plans
  check_plans-configured p group k [] = ground arith
  check_plans-configured p group k (n ∷ ns) = ground (arith, check_plans-configured p group k ns)

  by_class-configured :
      (c : MethodClass) (p : GroupPolicy X.Regex) (m : String) (names : List String)
      (group k : String)
      → by_class X c p m names group ≢ err (not_configured k)
  unfolding by_class
  by_class-configured queue_add p m names group k =
      ground (arith, check_plans-configured p group k names)
  by_class-configured c p m names group k = ground arith

  -- Under a loaded file a request without an API key is one of the default group, and that group is
  -- always configured: whatever else may refuse the request, the group is never missing.
  pub load-default_group :
      (J : Json) (path : String) (file : PermissionsFile) (g : Permissions X.Regex) (m : String)
      (params : J.Value)
      → load_parsed X path file ≡ some g
      → str_param J params "api_key" ≡ none
      → let group = resolve_group J g params in
        (group ≡ g.default_group) × (check J X g m params group ≢ err (not_configured group))
  unfolding resolve_group check_names
  load-default_group J path file g m params h k =
      let v = load-Loaded path file g h in
      (
        ground (arith, k),
        λ bad.
            by_class-configured (classify m) v.default_policy m (plan_names_from_params J params)
              g.default_group g.default_group (ground (arith, k, v.enforces, v.default_found, bad)),
      )

  -- `reload`: a failure leaves the state as it was; a success puts in place what the file at the
  -- configured path holds, which can be reloaded from that path again.
  pub reload-outcomes :
      (read_file : String → Option PermissionsFile) (g : Permissions X.Regex)
      → let (g', done) = reload X read_file g in
        ((done ≡ false) × (g' ≡ g))
        ⊎ ((done ≡ true)
            × ((path : String) × (file : PermissionsFile) × (g.path ≡ some path)
                × (read_file path ≡ some file)
                × (load_parsed X path file ≡ some g')
                × Loaded path g'))
  unfolding reload
  reload-outcomes read_file g = elim (Option-cases g.path) [
    | inl e ↦ inl (ground arith, ground arith)
    | inr x ↦
        let (path, e) = x in
        elim (Option-cases (read_file path)) [
          | inl n ↦ inl (ground (arith, e, n), ground (arith, e, n))
          | inr y ↦
              let (file, f) = y in
              elim (Option-cases (load_parsed X path file)) [
                | inl n ↦ inl (ground (arith, e, f, n), ground (arith, e, f, n))
                | inr z ↦
                    let (g', l) = z in
                    let e' : reload X read_file g ≡ (g', true) = ground (arith, e, f, l) in
                    rw e' (inr (refl, (path, file, e, f, l, load-Loaded path file g' l)))
              ]
        ]
  ]
