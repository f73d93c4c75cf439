-- ===== src/Assembly/Tests.antt =====
-- A module that depends on another, and the two depending on each other.
use hyperspot.Common.{ℕ, ◌≡◌, refl, some, List, [], ◌∷◌, map, Option, arith, Str}
use hyperspot.Common.Map
use hyperspot.Builder.{
  ModuleRegistry, Result, ok, empty_builder, register_core_with_meta, validate_capabilities,
  validate_keys, validate_holder, assemble_entries, assemble_entry, RegistryBuilder,
}
use hyperspot.Builder.Capabilities.{Registration, registers_core, register_all}
use hyperspot.Registry.{
  topo_sort, kahn, degrees, zeros, sources, increments, increment, relax, decrement,
}
use hyperspot.Registry.Graph.{
  build_dependency_graph, add_deps, add_edges, push_edge, index_names, no_edges,
}
use hyperspot.Cycles.{
  all_white, set_color, path_from, names_at, pop, visit, dfs, search_roots, detect_cycle_with_path,
}
use hyperspot.Assembly.{sort_and_assemble, check_and_sort, build_topo_sorted}
use hyperspot.Assembly.Outcome.{Built, build_topo_sorted-Built}

-- The module "b" depends on "a".
abbrev registrations : List (Registration ℕ)
registrations = registers_core (98 ∷ []) ((97 ∷ []) ∷ []) 2 ∷ registers_core (97 ∷ []) [] 1 ∷ []

core_size :
    map (λ p. p.0) (RegistryBuilder.core (register_all {H = ℕ} empty_builder registrations))
    ≡ (98 ∷ []) ∷ (97 ∷ []) ∷ []
unfolding register_core_with_meta Map.contains_key Map.insert
core_size = refl

abbrev names_of : Option (Result (ModuleRegistry ℕ)) → List Str
names_of (some (ok r)) = map (λ e. e.name) r.modules
names_of o = []

started_in_order :
    names_of (build_topo_sorted 2 (register_all empty_builder registrations))
    ≡ (97 ∷ []) ∷ (98 ∷ []) ∷ []
unfolding build_topo_sorted check_and_sort sort_and_assemble validate_capabilities validate_keys
    validate_holder assemble_entries assemble_entry register_core_with_meta Map.contains_key
    Map.insert Map.lookup topo_sort kahn degrees zeros sources increments increment relax decrement
    build_dependency_graph add_deps add_edges push_edge index_names no_edges all_white set_color
    path_from names_at pop visit dfs search_roots detect_cycle_with_path
started_in_order = refl

build_topo_sorted-Built_example :
    (r : Result (ModuleRegistry ℕ)) × (build_topo_sorted 2
        (register_all empty_builder registrations)
      ≡ some r)
    × Built (register_all empty_builder registrations) r
build_topo_sorted-Built_example =
    build_topo_sorted-Built registrations 2
      (unfold register_core_with_meta Map.contains_key Map.insert in omega arith)
