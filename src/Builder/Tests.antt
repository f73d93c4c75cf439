-- ===== src/Builder/Tests.antt =====
-- Two modules, the second a gRPC hub that depends on the first.
use hyperspot.Common.{ℕ, ◌≡◌, refl, true, List, [], ◌∷◌, map, text_key, All}
use hyperspot.Common.Map
use hyperspot.Builder.{
  RegistryBuilder, ModuleEntry, ok, empty_builder, assemble_entries, register_core_with_meta,
  register_grpc_hub_with_meta,
}
use hyperspot.Builder.Capabilities.{
  Registration, registers_core, registers_grpc_hub, register_all, assemble_entries-register_all,
}

-- The modules "a" and "b".
abbrev registrations : List (Registration ℕ)
registrations =
    registers_core (97 ∷ []) [] 1
    ∷ registers_core (98 ∷ []) ((97 ∷ []) ∷ []) 2
    ∷ registers_grpc_hub (98 ∷ []) 3
    ∷ []

abbrev builder : RegistryBuilder ℕ
builder = register_all empty_builder registrations

listed : All (λ n. Map.contains_key n builder.core ≡ true) ((98 ∷ []) ∷ (97 ∷ []) ∷ [])
unfolding register_core_with_meta register_grpc_hub_with_meta Map.contains_key Map.insert
listed = (refl, (refl, tt))

assemble_entries-register_all_example :
    (es : List (ModuleEntry ℕ)) × (assemble_entries builder ((98 ∷ []) ∷ (97 ∷ []) ∷ []) ≡ ok es)
    × (map (λ e. e.name) es ≡ (98 ∷ []) ∷ (97 ∷ []) ∷ [])
assemble_entries-register_all_example =
    assemble_entries-register_all registrations ((98 ∷ []) ∷ (97 ∷ []) ∷ []) listed
