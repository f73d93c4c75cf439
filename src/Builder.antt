-- ===== src/Builder.antt =====
-- libs/modkit/src/registry.rs: what the registrators feed, and the checks before the sort. `H` stands
-- for the handles of a module's capabilities.
pub mod Capabilities
mod Tests
use hyperspot.Common.{
  ℕ, Bool, true, false, not, Option, none, some, List, [], ◌∷◌, ◌++◌, Str, text_key, ◌==◌, is_empty,
  contains, if◌then◌else◌,
}
use hyperspot.Common.Map

-- The texts of the configuration errors, by what they say.
pub data ConfigError : Type 0 where
  already_registered : Str → ConfigError
  multiple_rest_hosts : Str → Str → ConfigError
  multiple_grpc_hubs : Str → Str → ConfigError

pub data RegistryError : Type 0 where
  unknown_module : Str → RegistryError
  invalid_registry_configuration : List ConfigError → RegistryError
  unknown_dependency : Str → Str → RegistryError
  missing_deps core_not_found : Str → RegistryError
  cycle_detected : List Str → RegistryError

pub data Result (A : Type 0) : Type 0 where
  ok : A → Result A
  err : RegistryError → Result A

infixl 20 ◌>>=◌
abbrev pub ◌>>=◌ : {A B : Type 0} → Result A → (A → Result B) → Result B
ok a >>= f = f a
err e >>= f = err e

abbrev pub validate_errors : List ConfigError → Result (Unit {0})
validate_errors [] = ok tt
validate_errors (e ∷ es) = err (invalid_registry_configuration (e ∷ es))

abbrev pub ok_or : {A : Type 0} → Option A → RegistryError → Result A
ok_or none e = err e
ok_or (some a) e = ok a

pub record RegistryBuilder (H : Type 0) : Type 0 where
  pub core : List (Str × H)
  pub deps : List (Str × List Str)
  pub rest : List (Str × H)
  pub rest_host : Option (Str × H)
  pub db : List (Str × H)
  pub stateful : List (Str × H)
  pub system_modules : List Str
  pub grpc_hub : Option (Str × H)
  pub grpc_services : List (Str × H)
  pub errors : List ConfigError

pub record ModuleEntry (H : Type 0) : Type 0 where
  pub name : Str
  pub deps : List Str
  pub core : H
  pub rest : Option H
  pub rest_host : Option H
  pub db : Option H
  pub stateful : Option H
  pub is_system : Bool
  pub grpc_hub : Option H
  pub grpc_service : Option H

pub record ModuleRegistry (H : Type 0) : Type 0 where
  pub modules : List (ModuleEntry H)
  pub grpc_hub : Option Str
  pub grpc_services : List (Str × H)

module _ {H : Type 0} where
  -- `RegistryBuilder::default()`.
  abbrev pub empty_builder : RegistryBuilder H
  empty_builder = record {
    core = [];
    deps = [];
    rest = [];
    rest_host = none;
    db = [];
    stateful = [];
    system_modules = [];
    grpc_hub = none;
    grpc_services = [];
    errors = [];
  }

  unfoldable pub register_core_with_meta :
      RegistryBuilder H → Str → List Str → H → RegistryBuilder H
  register_core_with_meta b name deps m =
      if Map.contains_key name b.core
      then record b { errors = b.errors ++ already_registered name ∷ [] }
      else record b { core = Map.insert name m b.core; deps = Map.insert name deps b.deps }

  unfoldable pub register_rest_with_meta : RegistryBuilder H → Str → H → RegistryBuilder H
  register_rest_with_meta b name m = record b { rest = Map.insert name m b.rest }

  unfoldable pub register_rest_host_with_meta : RegistryBuilder H → Str → H → RegistryBuilder H
  register_rest_host_with_meta b name m = elim (b.rest_host) [
    | some existing ↦ record b { errors = b.errors ++ multiple_rest_hosts existing.0 name ∷ [] }
    | none ↦ record b { rest_host = some (name, m) }
  ]

  unfoldable pub register_db_with_meta : RegistryBuilder H → Str → H → RegistryBuilder H
  register_db_with_meta b name m = record b { db = Map.insert name m b.db }

  unfoldable pub register_stateful_with_meta : RegistryBuilder H → Str → H → RegistryBuilder H
  register_stateful_with_meta b name m = record b { stateful = Map.insert name m b.stateful }

  unfoldable pub register_system_with_meta : RegistryBuilder H → Str → RegistryBuilder H
  register_system_with_meta b name = record b {
    system_modules =
        if contains name b.system_modules then b.system_modules else name ∷ b.system_modules;
  }

  unfoldable pub register_grpc_hub_with_meta : RegistryBuilder H → Str → H → RegistryBuilder H
  register_grpc_hub_with_meta b name m = elim (b.grpc_hub) [
    | some existing ↦ record b { errors = b.errors ++ multiple_grpc_hubs existing.0 name ∷ [] }
    | none ↦ record b { grpc_hub = some (name, m) }
  ]

  unfoldable pub register_grpc_service_with_meta : RegistryBuilder H → Str → H → RegistryBuilder H
  register_grpc_service_with_meta b name m = record b {
    grpc_services = Map.insert name m b.grpc_services;
  }

  -- The checks of one capability: of its single holder, and of the keys of its map.
  unfoldable pub validate_holder : List (Str × H) → Option (Str × H) → Result (Unit {0})
  validate_holder core none = ok tt
  validate_holder core (some (name, m)) =
      if not (Map.contains_key name core) then err (unknown_module name) else ok tt

  unfoldable pub validate_keys : List (Str × H) → List (Str × H) → Result (Unit {0})
  validate_keys core [] = ok tt
  validate_keys core ((name, m) ∷ rest) =
      let later = validate_keys core rest in
      if not (Map.contains_key name core) then err (unknown_module name) else later

  unfoldable pub validate_capabilities : RegistryBuilder H → Result (Unit {0})
  validate_capabilities b = validate_holder b.core b.rest_host >>= λ u.
      validate_errors b.errors >>= λ u. validate_keys b.core b.rest >>= λ u.
      validate_holder b.core b.rest_host >>= λ u. validate_keys b.core b.db >>= λ u.
      validate_keys b.core b.stateful >>= λ u.
      validate_holder b.core b.grpc_hub >>= λ u. validate_keys b.core b.grpc_services

  -- The holder's handle, for the module that holds it.
  abbrev pub held_by : Str → Option (Str × H) → Option H
  held_by name none = none
  held_by name (some (holder, m)) = if holder == name then some m else none

  abbrev pub entry_of : RegistryBuilder H → Str → List Str → H → ModuleEntry H
  entry_of b name deps core = record {
    name = name;
    deps = deps;
    core = core;
    rest = Map.lookup name b.rest;
    rest_host = held_by name b.rest_host;
    db = Map.lookup name b.db;
    stateful = Map.lookup name b.stateful;
    is_system = contains name b.system_modules;
    grpc_hub = held_by name b.grpc_hub;
    grpc_service = Map.lookup name b.grpc_services;
  }

  -- One turn of the loop of `assemble_entries`, for the name at the index.
  unfoldable pub assemble_entry : RegistryBuilder H → Str → Result (ModuleEntry H)
  assemble_entry b name = ok_or (Map.lookup name b.deps) (missing_deps name) >>= λ deps.
      ok_or (Map.lookup name b.core) (core_not_found name) >>= λ core.
      ok (entry_of b name deps core)

  unfoldable pub assemble_entries : RegistryBuilder H → List Str → Result (List (ModuleEntry H))
  assemble_entries b [] = ok []
  assemble_entries b (name ∷ names) =
      let later = assemble_entries b names in
      assemble_entry b name >>= λ e. later >>= λ es. ok (e ∷ es)

  -- `partition` of the two vectors that are filled in one loop.
  unfoldable pub system_mods : List (ModuleEntry H) → List (ModuleEntry H)
  system_mods [] = []
  system_mods (e ∷ es) = let rest = system_mods es in if e.is_system then e ∷ rest else rest

  unfoldable pub non_system_mods : List (ModuleEntry H) → List (ModuleEntry H)
  non_system_mods [] = []
  non_system_mods (e ∷ es) = let rest = non_system_mods es in if e.is_system then rest else e ∷ rest

  unfoldable pub modules_by_system_priority : List (ModuleEntry H) → List (ModuleEntry H)
  modules_by_system_priority modules = system_mods modules ++ non_system_mods modules
