-- ===== src/Assembly/Unique.antt =====
-- Registered modules have one name each.
use hyperspot.Common.{inl, inr, List, [], ◌∷◌, text_key, Bool-cases, Option-cases}
use hyperspot.Common.Map
use hyperspot.Common.Map.{UniqueKeys}
use hyperspot.Builder.{
  RegistryBuilder, register_core_with_meta, register_rest_with_meta, register_rest_host_with_meta,
  register_db_with_meta, register_stateful_with_meta, register_system_with_meta,
  register_grpc_hub_with_meta, register_grpc_service_with_meta,
}
use hyperspot.Builder.Capabilities.{
  Registration, registers_core, registers_rest, registers_rest_host, registers_db,
  registers_stateful, registers_grpc_hub, registers_grpc_service, registers_system, register,
  register_all,
}

module _ {H : Type 0} where
  register-UniqueKeys :
      (b : RegistryBuilder H) (r : Registration H)
      → UniqueKeys b.core
      → UniqueKeys (register b r).core
  unfolding register_core_with_meta register_rest_with_meta register_rest_host_with_meta
      register_db_with_meta register_stateful_with_meta register_system_with_meta
      register_grpc_hub_with_meta register_grpc_service_with_meta
  register-UniqueKeys b (registers_core name deps m) u =
      elim (Bool-cases (Map.contains_key name b.core)) [
        | inl e ↦ rw e u
        | inr e ↦ rw e (Map.insert-UniqueKeys name m b.core u)
      ]
  register-UniqueKeys b (registers_rest name m) u = u
  register-UniqueKeys b (registers_rest_host name m) u = elim (Option-cases b.rest_host) [
    | inl e ↦ rw (e, register_rest_host_with_meta) u
    | inr (x, e) ↦ rw (e, register_rest_host_with_meta) u
  ]
  register-UniqueKeys b (registers_db name m) u = u
  register-UniqueKeys b (registers_stateful name m) u = u
  register-UniqueKeys b (registers_grpc_hub name m) u = elim (Option-cases b.grpc_hub) [
    | inl e ↦ rw (e, register_grpc_hub_with_meta) u
    | inr (x, e) ↦ rw (e, register_grpc_hub_with_meta) u
  ]
  register-UniqueKeys b (registers_grpc_service name m) u = u
  register-UniqueKeys b (registers_system name) u = u

  pub register_all-UniqueKeys :
      (b : RegistryBuilder H) (rs : List (Registration H))
      → UniqueKeys b.core
      → UniqueKeys (register_all b rs).core
  register_all-UniqueKeys b [] u = u
  register_all-UniqueKeys b (r ∷ rs) u =
      register_all-UniqueKeys (register b r) rs (register-UniqueKeys b r u)
