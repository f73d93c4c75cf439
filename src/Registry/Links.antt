-- ===== src/Registry/Links.antt =====
-- The loop of build_dependency_graph over the modules.
use hyperspot.Common.{
  ℕ, ◌≡◌, refl, ◌∙◌, ◌⊎◌, inl, inr, none, some, List, [], ◌∷◌, length, In, All, arith, Str,
  text_key, nat_key, Option-cases,
}
use hyperspot.Common.Map
use hyperspot.Builder.{RegistryError, Result, ok, err, unknown_module}
use hyperspot.Registry.{and_then}
use hyperspot.Registry.Kahn.{and_then-some}
use hyperspot.Registry.Graph.{add_edges, add_deps, then_ok}
use hyperspot.Registry.Edges.{
  Grown, Targets, IndexesBelow, HasEdge, EdgesAdded, IsUnknownDependency, add_edges-EdgesAdded,
}

-- All dependencies of a module are edges to it.
abbrev pub Linked : List (Str × ℕ) → List (List ℕ) → Str × List Str → Type 0
Linked idx adj (n, ds) = (u : ℕ) × (Map.lookup n idx ≡ some u) × All (HasEdge idx u adj) ds

-- A module, or a dependency of one, that is not registered, and the error for it.
abbrev pub IsUnknown : List (Str × ℕ) → List (Str × List Str) → RegistryError → Type 0
IsUnknown idx deps e =
    (n : Str) × (ds : List Str) × In (n, ds) deps
    × (((Map.lookup n idx ≡ none) × (e ≡ unknown_module n)) ⊎ IsUnknownDependency idx n ds e)

abbrev pub DepsAdded :
    List (Str × ℕ) → List (Str × List Str) → List (List ℕ) → Result (List (List ℕ)) → Type 0
DepsAdded idx deps adj (err e) = IsUnknown idx deps e
DepsAdded idx deps adj (ok adj') = Grown adj adj' × All (Linked idx adj') deps

HasEdge-Grown :
    (idx : List (Str × ℕ)) (u : ℕ) (adj adj' : List (List ℕ)) (ds : List Str)
    → Grown adj adj'
    → All (HasEdge idx u adj) ds
    → All (HasEdge idx u adj') ds
HasEdge-Grown idx u adj adj' [] g h = tt
HasEdge-Grown idx u adj adj' (d ∷ ds) g ((v, q, edge), rest) =
    ((v, q, g.keeps v u edge), HasEdge-Grown idx u adj adj' ds g rest)

DepsAdded-cons :
    (idx : List (Str × ℕ)) (n : Str) (u : ℕ) (ds : List Str) (deps : List (Str × List Str))
    (adj adj' : List (List ℕ)) (r : Result (List (List ℕ)))
    → Map.lookup n idx ≡ some u
    → EdgesAdded idx n u ds adj (ok adj')
    → DepsAdded idx deps adj' r
    → DepsAdded idx ((n, ds) ∷ deps) adj r
DepsAdded-cons idx n u ds deps adj adj' (err e) q (g, edges) (m, cs, i, why) = (m, cs, inr i, why)
DepsAdded-cons idx n u ds deps adj adj' (ok adj'') q (g, edges) (g', linked) = (
  record {
    size = g'.size ∙ g.size;
    keeps = λ k w edge. g'.keeps k w (g.keeps k w edge);
    targets = λ k w edge. omega (arith, g'.targets k w edge, g.size);
  },
  ((u, q, HasEdge-Grown idx u adj' adj'' ds g' edges), linked),
)

after_edges :
    (idx : List (Str × ℕ)) (n : Str) (u : ℕ) (ds : List Str) (deps : List (Str × List Str))
    (adj : List (List ℕ)) (r : Result (List (List ℕ)))
    → Map.lookup n idx ≡ some u
    → add_edges idx n u ds adj ≡ some r
    → EdgesAdded idx n u ds adj r
    → ((adj' : List (List ℕ))
        → Grown adj adj'
        → (r' : Result (List (List ℕ))) × (add_deps idx deps adj' ≡ some r')
          × DepsAdded idx deps adj' r')
    → (r' : Result (List (List ℕ))) × (and_then
          (add_edges idx n u ds adj)
          (then_ok (add_deps idx deps))
        ≡ some r')
      × DepsAdded idx ((n, ds) ∷ deps) adj r'
after_edges idx n u ds deps adj (err x) q e added next =
    (err x, and_then-some _ _ e, (n, ds, inl refl, inr added))
after_edges idx n u ds deps adj (ok adj') q e added next =
    let (r', e', all) = next adj' added.0 in
    (r', and_then-some _ _ e ∙ e', DepsAdded-cons idx n u ds deps adj adj' r' q added all)

pub add_deps-DepsAdded :
    (idx : List (Str × ℕ)) (deps : List (Str × List Str)) (adj : List (List ℕ))
    → IndexesBelow idx (length adj)
    → Targets adj
    → (r : Result (List (List ℕ))) × (add_deps idx deps adj ≡ some r) × DepsAdded idx deps adj r
unfolding add_deps
add_deps-DepsAdded idx [] adj below targets =
    (ok adj, refl, (record { size = refl; keeps = λ k w edge. edge; targets = targets }, tt))
add_deps-DepsAdded idx ((n, ds) ∷ deps) adj below targets = elim (Option-cases (Map.lookup n idx)) [
  | inl q ↦ (err (unknown_module n), rw (add_deps, q) refl, (n, ds, inl refl, inl (q, refl)))
  | inr (u, q) ↦
      let (r, e, added) = add_edges-EdgesAdded idx n u ds adj below (below n u q) targets in
      let (r', e', all) = after_edges idx n u ds deps adj r q e added (λ adj' g.
        add_deps-DepsAdded idx deps adj' (λ c w there. omega (arith, below c w there, g.size))
          (λ k w edge. omega (arith, g.targets k w edge, g.size))) in
      (r', rw (add_deps, q) e', all)
]
