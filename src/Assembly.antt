-- ===== src/Assembly.antt =====
-- build_topo_sorted of libs/modkit/src/registry.rs: the steps from the builder to the registry.
-- `none` is a panic or the end of the fuel.
pub mod Graph
pub mod Order
pub mod Unique
pub mod Loop
pub mod Outcome
mod Tests
use hyperspot.Common.{ℕ, suc, Option, none, some, List, Str}
use mathlib.Core.Option
use hyperspot.Builder.{
  RegistryBuilder, ModuleEntry, ModuleRegistry, Result, ok, err, validate_capabilities,
  assemble_entries, cycle_detected,
}
use hyperspot.Registry.{and_then, topo_sort}
use hyperspot.Registry.Graph.{then_ok, build_dependency_graph}
use hyperspot.Cycles.{names_at, detect_cycle_with_path}

module _ {H : Type 0} where
  -- The final registry around the entries.
  abbrev pub registry_of :
      RegistryBuilder H → Result (List (ModuleEntry H)) → Result (ModuleRegistry H)
  registry_of b (err e) = err e
  registry_of b (ok entries) = ok (record {
    modules = entries;
    grpc_hub = Option.map (λ p. p.0) b.grpc_hub;
    grpc_services = b.grpc_services;
  })

  -- Steps 4 and 5: the sort, and the entries in its order.
  unfoldable pub sort_and_assemble :
      ℕ → RegistryBuilder H → List Str → List (List ℕ) → Option (Result (ModuleRegistry H))
  sort_and_assemble fuel b names adj = and_then (topo_sort (suc fuel) adj) (λ order.
      and_then (names_at names order) (λ sorted. some (registry_of b (assemble_entries b sorted))))

  -- Step 3: a cycle is an error.
  unfoldable pub check_and_sort :
      ℕ
      → RegistryBuilder H
      → List Str
      → List (List ℕ)
      → Option (List Str)
      → Option (Result (ModuleRegistry H))
  check_and_sort fuel b names adj (some cycle) = some (err (cycle_detected cycle))
  check_and_sort fuel b names adj none = sort_and_assemble fuel b names adj

  -- `fuel` bounds the depth of the search for cycles, and the turns of the sort but for the last.
  unfoldable pub build_topo_sorted : ℕ → RegistryBuilder H → Option (Result (ModuleRegistry H))
  build_topo_sorted fuel b = elim (validate_capabilities b) [
    | err e ↦ some (err e)
    | ok u ↦ and_then (build_dependency_graph b) (
        then_ok (λ (names, adj, idx).
          and_then (detect_cycle_with_path fuel names adj) (check_and_sort fuel b names adj)))
  ]
