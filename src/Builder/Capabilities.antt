-- ===== src/Builder/Capabilities.antt =====
-- What the checks before the sort accept, and that the entries of registered modules can be made.
use hyperspot.Common.{
  ◌≡◌, refl, ap₂, sym, subst, ◌∙◌, ◌↔◌, inl, inr, true, false, Option, none, some, List, [], ◌∷◌,
  map, All, Str, text_key, ◌==◌, Bool-cases, Option-cases,
}
use hyperspot.Common.Map
use hyperspot.Builder.{
  empty_builder, entry_of, ConfigError, Result, ok, err, ◌>>=◌, RegistryBuilder, ModuleEntry,
  validate_holder, validate_keys, validate_errors, validate_capabilities, unknown_module,
  register_core_with_meta, register_rest_with_meta, register_rest_host_with_meta,
  register_db_with_meta, register_stateful_with_meta, register_system_with_meta,
  register_grpc_hub_with_meta, register_grpc_service_with_meta, assemble_entry, assemble_entries,
}

then-ok :
    (r : Result (Unit {0})) (s : Result (Unit {0}))
    → (r >>= λ u. s) ≡ ok tt
    → (r ≡ ok tt) × (s ≡ ok tt)
then-ok (ok u) s h = (refl, h)
then-ok (err e) s h = cc

errors_iff : (es : List ConfigError) → (validate_errors es ≡ ok tt) ↔ (es ≡ [])
errors_iff [] = (λ h. refl, λ h. refl)
errors_iff (e ∷ es) = (λ h. cc, λ h. cc)

-- A registrator's calls.
pub data Registration (H : Type 0) : Type 0 where
  registers_core : Str → List Str → H → Registration H
  registers_rest registers_rest_host registers_db registers_stateful : Str → H → Registration H
  registers_grpc_hub registers_grpc_service : Str → H → Registration H
  registers_system : Str → Registration H

module _ {H : Type 0} where
  -- The holder, and every key, is the name of a registered module.
  abbrev pub IsKnownHolder : List (Str × H) → Option (Str × H) → Type 0
  IsKnownHolder core none = Unit
  IsKnownHolder core (some (name, m)) = Map.contains_key name core ≡ true

  abbrev pub AreKnown : List (Str × H) → List (Str × H) → Type 0
  AreKnown core m = All (λ p. Map.contains_key p.0 core ≡ true) m

  pub record IsConsistent (b : RegistryBuilder H) : Type 0 where
    pub no_errors : b.errors ≡ []
    pub known_rest : AreKnown b.core b.rest
    pub known_rest_host : IsKnownHolder b.core b.rest_host
    pub known_db : AreKnown b.core b.db
    pub known_stateful : AreKnown b.core b.stateful
    pub known_grpc_hub : IsKnownHolder b.core b.grpc_hub
    pub known_grpc_services : AreKnown b.core b.grpc_services

  holder_iff :
      (core : List (Str × H)) (o : Option (Str × H))
      → (validate_holder core o ≡ ok tt) ↔ IsKnownHolder core o
  unfolding validate_holder
  holder_iff core none = (λ h. tt, λ h. refl)
  holder_iff core (some (name, m)) = (
    λ h. elim (Bool-cases (Map.contains_key name core)) [
      | inl e ↦ e
      | inr e ↦ let no : err (unknown_module name) ≡ ok tt = rw e at h in cc
    ],
    λ h. rw h refl,
  )

  keys_iff : (core m : List (Str × H)) → (validate_keys core m ≡ ok tt) ↔ AreKnown core m
  unfolding validate_keys
  keys_iff core [] = (λ h. tt, λ h. refl)
  keys_iff core ((name, w) ∷ m) = (
    λ h. elim (Bool-cases (Map.contains_key name core)) [
      | inl e ↦ (e, (keys_iff core m).0 (rw e at h))
      | inr e ↦ let no : err (unknown_module name) ≡ ok tt = rw e at h in cc
    ],
    λ h. rw h.0 ((keys_iff core m).1 h.1),
  )

  pub validate_capabilities_iff :
      (b : RegistryBuilder H) → (validate_capabilities b ≡ ok tt) ↔ IsConsistent b
  unfolding validate_capabilities
  validate_capabilities_iff b = (
    λ h.
        let (rest_host, h1) = then-ok _ _ h in
        let (errors, h2) = then-ok _ _ h1 in
        let (rest, h3) = then-ok _ _ h2 in
        let (again, h4) = then-ok _ _ h3 in
        let (db, h5) = then-ok _ _ h4 in
        let (stateful, h6) = then-ok _ _ h5 in
        let (hub, services) = then-ok _ _ h6 in
        record {
          no_errors = (errors_iff b.errors).0 errors;
          known_rest = (keys_iff b.core b.rest).0 rest;
          known_rest_host = (holder_iff b.core b.rest_host).0 rest_host;
          known_db = (keys_iff b.core b.db).0 db;
          known_stateful = (keys_iff b.core b.stateful).0 stateful;
          known_grpc_hub = (holder_iff b.core b.grpc_hub).0 hub;
          known_grpc_services = (keys_iff b.core b.grpc_services).0 services;
        },
    λ w.
        rw
          (
            (holder_iff b.core b.rest_host).1 w.known_rest_host,
            (errors_iff b.errors).1 w.no_errors,
            (keys_iff b.core b.rest).1 w.known_rest,
            (keys_iff b.core b.db).1 w.known_db,
            (keys_iff b.core b.stateful).1 w.known_stateful,
            (holder_iff b.core b.grpc_hub).1 w.known_grpc_hub,
          )
          ((keys_iff b.core b.grpc_services).1 w.known_grpc_services),
  )

  abbrev pub register : RegistryBuilder H → Registration H → RegistryBuilder H
  register b (registers_core name deps m) = register_core_with_meta b name deps m
  register b (registers_rest name m) = register_rest_with_meta b name m
  register b (registers_rest_host name m) = register_rest_host_with_meta b name m
  register b (registers_db name m) = register_db_with_meta b name m
  register b (registers_stateful name m) = register_stateful_with_meta b name m
  register b (registers_grpc_hub name m) = register_grpc_hub_with_meta b name m
  register b (registers_grpc_service name m) = register_grpc_service_with_meta b name m
  register b (registers_system name) = register_system_with_meta b name

  abbrev pub register_all : RegistryBuilder H → List (Registration H) → RegistryBuilder H
  register_all b [] = b
  register_all b (r ∷ rs) = register_all (register b r) rs

  -- A registered module has its dependencies listed.
  abbrev IsPaired : RegistryBuilder H → Type 0
  IsPaired b =
      (name : Str) → Map.contains_key name b.core ≡ true → Map.contains_key name b.deps ≡ true

  paired-insert :
      (core : List (Str × H)) (deps : List (Str × List Str)) (name : Str) (m : H) (ds : List Str)
      → ((n : Str) → Map.contains_key n core ≡ true → Map.contains_key n deps ≡ true)
      → (n : Str) → Map.contains_key n (Map.insert name m core) ≡ true
      → Map.contains_key n (Map.insert name ds deps) ≡ true
  paired-insert core deps name m ds p n h = elim (Bool-cases (name == n)) [
    | inl e ↦ Map.contains_key-insert name n ds deps ∙ rw e refl
    | inr e ↦
        let before : Map.contains_key n core ≡ true =
          rw e at (sym (Map.contains_key-insert name n m core) ∙ h) in
        Map.contains_key-insert name n ds deps ∙ rw e (p n before)
  ]

  core-IsPaired :
      (b : RegistryBuilder H) (name : Str) (deps : List Str) (m : H)
      → IsPaired b
      → IsPaired (register_core_with_meta b name deps m)
  unfolding register_core_with_meta
  core-IsPaired b name deps m p = elim (Bool-cases (Map.contains_key name b.core)) [
    | inl e ↦ rw e p
    | inr e ↦ rw e (paired-insert b.core b.deps name m deps p)
  ]

  rest_host-IsPaired :
      (b : RegistryBuilder H) (name : Str) (m : H)
      → IsPaired b
      → IsPaired (register_rest_host_with_meta b name m)
  unfolding register_rest_host_with_meta
  rest_host-IsPaired b name m p = elim (Option-cases b.rest_host) [
    | inl e ↦ rw (e, register_rest_host_with_meta) p
    | inr (x, e) ↦ rw (e, register_rest_host_with_meta) p
  ]

  hub-IsPaired :
      (b : RegistryBuilder H) (name : Str) (m : H)
      → IsPaired b
      → IsPaired (register_grpc_hub_with_meta b name m)
  unfolding register_grpc_hub_with_meta
  hub-IsPaired b name m p = elim (Option-cases b.grpc_hub) [
    | inl e ↦ rw (e, register_grpc_hub_with_meta) p
    | inr (x, e) ↦ rw (e, register_grpc_hub_with_meta) p
  ]

  register-IsPaired :
      (b : RegistryBuilder H) (r : Registration H) → IsPaired b → IsPaired (register b r)
  unfolding register_rest_with_meta register_db_with_meta register_stateful_with_meta
      register_grpc_service_with_meta register_system_with_meta
  register-IsPaired b (registers_core name deps m) p = core-IsPaired b name deps m p
  register-IsPaired b (registers_rest name m) p = p
  register-IsPaired b (registers_rest_host name m) p = rest_host-IsPaired b name m p
  register-IsPaired b (registers_db name m) p = p
  register-IsPaired b (registers_stateful name m) p = p
  register-IsPaired b (registers_grpc_hub name m) p = hub-IsPaired b name m p
  register-IsPaired b (registers_grpc_service name m) p = p
  register-IsPaired b (registers_system name) p = p

  empty-IsPaired : (b : RegistryBuilder H) → b.core ≡ [] → IsPaired b
  unfolding Map.contains_key
  empty-IsPaired b e n h =
      let no : false ≡ true = subst (λ c. Map.contains_key n c ≡ true) e h in cc

  register_all-IsPaired :
      (b : RegistryBuilder H) (rs : List (Registration H))
      → IsPaired b
      → IsPaired (register_all b rs)
  register_all-IsPaired b [] p = p
  register_all-IsPaired b (r ∷ rs) p =
      register_all-IsPaired (register b r) rs (register-IsPaired b r p)

  assembled :
      (b : RegistryBuilder H) (name : Str)
      → IsPaired b
      → Map.contains_key name b.core ≡ true
      → (e : ModuleEntry H) × (assemble_entry b name ≡ ok e) × (e.name ≡ name)
  unfolding assemble_entry
  assembled b name p h =
      let (deps, d) = Map.contains_key-lookup name b.deps (p name h) in
      let (core, c) = Map.contains_key-lookup name b.core h in
      (entry_of b name deps core, rw (d, c) refl, refl)

  assembled_all :
      (b : RegistryBuilder H) (names : List Str)
      → IsPaired b
      → All (λ n. Map.contains_key n b.core ≡ true) names
      → (es : List (ModuleEntry H)) × (assemble_entries b names ≡ ok es)
        × (map (λ e. e.name) es ≡ names)
  unfolding assemble_entries
  assembled_all b [] p h = ([], refl, refl)
  assembled_all b (name ∷ names) p h =
      let (e, one, named) = assembled b name p h.0 in
      let (es, rest, others) = assembled_all b names p h.1 in
      (e ∷ es, rw (one, rest) refl, ap₂ (◌∷◌) named others)

  -- After any registrations on an empty builder, an entry can be made for every registered module, in
  -- whatever order they are asked for: the errors of missing dependencies and of a missing core do
  -- not occur, and the entries stand in the order of the names.
  pub assemble_entries-register_all :
      (rs : List (Registration H)) (names : List Str)
      → All (λ n. Map.contains_key n (register_all empty_builder rs).core ≡ true) names
      → (es : List (ModuleEntry H)) × (assemble_entries (register_all empty_builder rs) names
          ≡ ok es)
        × (map (λ e. e.name) es ≡ names)
  assemble_entries-register_all rs names h =
      assembled_all (register_all empty_builder rs) names
        (register_all-IsPaired empty_builder rs (empty-IsPaired empty_builder refl)) h
