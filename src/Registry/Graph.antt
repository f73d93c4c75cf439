-- ===== src/Registry/Graph.antt =====
-- Step 2 of build_topo_sorted: build_dependency_graph turns the modules' names and dependencies into
-- adjacency lists by index. The inner Result is the code's; `none` is a panic.
use hyperspot.Common.{
  ℕ, zero, suc, ◌+◌, Option, none, some, List, [], ◌∷◌, ◌++◌, Str, text_key, map,
}
use hyperspot.Common.Map
use hyperspot.Builder.{RegistryBuilder, Result, ok, err, unknown_module, unknown_dependency}
use hyperspot.Registry.{and_then}

-- `idx.insert(n, i)` for each name.
unfoldable pub index_names : ℕ → List Str → List (Str × ℕ) → List (Str × ℕ)
index_names i [] idx = idx
index_names i (n ∷ names) idx = index_names (i + 1) names (Map.insert n i idx)

unfoldable pub no_edges : List Str → List (List ℕ)
no_edges [] = []
no_edges (n ∷ names) = [] ∷ no_edges names

-- `adj[v].push(u)`.
unfoldable pub push_edge : List (List ℕ) → ℕ → ℕ → Option (List (List ℕ))
push_edge [] v u = none
push_edge (ws ∷ adj) zero u = some ((ws ++ u ∷ []) ∷ adj)
push_edge (ws ∷ adj) (suc v) u = and_then (push_edge adj v u) (λ rows. some (ws ∷ rows))

-- The loop over the dependencies of the module `n` with the index `u`.
unfoldable pub add_edges :
    List (Str × ℕ) → Str → ℕ → List Str → List (List ℕ) → Option (Result (List (List ℕ)))
add_edges idx n u [] adj = some (ok adj)
add_edges idx n u (d ∷ ds) adj = elim (Map.lookup d idx) [
  | none ↦ some (err (unknown_dependency n d))
  | some v ↦ and_then (push_edge adj v u) (add_edges idx n u ds)
]

abbrev pub then_ok : {A B : Type 0} → (A → Option (Result B)) → Result A → Option (Result B)
then_ok f (ok a) = f a
then_ok f (err e) = some (err e)

unfoldable pub add_deps :
    List (Str × ℕ) → List (Str × List Str) → List (List ℕ) → Option (Result (List (List ℕ)))
add_deps idx [] adj = some (ok adj)
add_deps idx ((n, ds) ∷ deps) adj = elim (Map.lookup n idx) [
  | none ↦ some (err (unknown_module n))
  | some u ↦ and_then (add_edges idx n u ds adj) (then_ok (add_deps idx deps))
]

module _ {H : Type 0} where
  unfoldable pub build_dependency_graph :
      RegistryBuilder H → Option (Result (List Str × List (List ℕ) × List (Str × ℕ)))
  build_dependency_graph b =
      let names = map (λ p. p.0) b.core in
      let idx = index_names 0 names [] in
      and_then (add_deps idx b.deps (no_edges names)) (then_ok (λ adj. some (ok (names, adj, idx))))
