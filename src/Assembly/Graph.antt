-- ===== src/Assembly/Graph.antt =====
-- The graph of build_dependency_graph has an edge exactly from each dependency to its module.
use hyperspot.Common.{
  ℕ, zero, suc, ◌≡◌, refl, sym, ap, subst, ◌∙◌, ◌⊎◌, inl, inr, Option, none, some, List, [], ◌∷◌,
  ◌++◌, length, get_elem?, In, All, In-append_split, arith, Str, text_key, map, Option-cases,
}
use hyperspot.Common.Map
use hyperspot.Builder.{RegistryBuilder, Result, ok, err}
use hyperspot.Registry.{and_then}
use hyperspot.Registry.Kahn.{some-inj, and_then-some}
use hyperspot.Registry.Start.{get_elem?-lt}
use hyperspot.Registry.Graph.{
  index_names, no_edges, push_edge, add_edges, add_deps, then_ok, build_dependency_graph,
}
use hyperspot.Registry.Edges.{Edge, Targets}
use hyperspot.Registry.Links.{Linked, DepsAdded, add_deps-DepsAdded}
use hyperspot.Registry.Names.{
  IsIndex, index_names-IsIndex, NameIsMissing, IsUnknown-NameIsMissing, length-no_edges,
  no_edges-Targets,
}
use hyperspot.Cycles.Colors.{and_then-inv}

split_head :
    (ws : List ℕ) (adj : List (List ℕ)) (u k w : ℕ)
    → Edge ((ws ++ u ∷ []) ∷ adj) k w
    → Edge (ws ∷ adj) k w ⊎ ((0 ≡ k) × (u ≡ w))
split_head ws adj u zero w (vs, e, i) =
    elim (In-append_split w ws (u ∷ []) (subst (In w) (sym (some-inj e)) i)) [
      | inl old ↦ inl (ws, refl, old)
      | inr (inl new) ↦ inr (refl, new)
      | inr (inr absent) ↦ absurd absent
    ]
split_head ws adj u (suc k) w edge = inl edge

split_tail :
    (ws : List ℕ) (adj rows : List (List ℕ)) (v u k w : ℕ)
    → ((j : ℕ) → Edge rows j w → Edge adj j w ⊎ ((v ≡ j) × (u ≡ w)))
    → Edge (ws ∷ rows) k w
    → Edge (ws ∷ adj) k w ⊎ ((suc v ≡ k) × (u ≡ w))
split_tail ws adj rows v u zero w only edge = inl edge
split_tail ws adj rows v u (suc k) w only edge = elim (only k edge) [
  | inl old ↦ inl old
  | inr (e, f) ↦ inr (ap suc e, f)
]

push_edge-only :
    (adj adj' : List (List ℕ)) (v u k w : ℕ)
    → push_edge adj v u ≡ some adj'
    → Edge adj' k w
    → Edge adj k w ⊎ ((v ≡ k) × (u ≡ w))
unfolding push_edge
push_edge-only [] adj' v u k w h edge = cc
push_edge-only (ws ∷ adj) adj' zero u k w h edge =
    split_head ws adj u k w (subst (λ a. Edge a k w) (sym (some-inj h)) edge)
push_edge-only (ws ∷ adj) adj' (suc v) u k w h edge =
    let (rows, e, whole) = and_then-inv (push_edge adj v u) _ h in
    split_tail ws adj rows v u k w (λ j. push_edge-only adj rows v u j w e)
      (subst (λ a. Edge a k w) (sym (some-inj whole)) edge)

-- An edge of the module with the index `u` comes from one of its dependencies.
abbrev FromDeps : List (Str × ℕ) → List Str → ℕ → Type 0
FromDeps idx ds k = (d : Str) × In d ds × (Map.lookup d idx ≡ some k)

add_edges-only :
    (idx : List (Str × ℕ)) (n : Str) (u : ℕ) (ds : List Str) (adj adj' : List (List ℕ)) (k w : ℕ)
    → add_edges idx n u ds adj ≡ some (ok adj')
    → Edge adj' k w
    → Edge adj k w ⊎ (FromDeps idx ds k × (u ≡ w))
unfolding add_edges
add_edges-only idx n u [] adj adj' k w h edge =
    let same : adj ≡ adj' = cc in inl (subst (λ a. Edge a k w) (sym same) edge)
add_edges-only idx n u (d ∷ ds) adj adj' k w h edge = elim (Option-cases (Map.lookup d idx)) [
  | inl q ↦ let gone = rw (add_edges, q) at h in cc
  | inr (v, q) ↦
      let (adj1, e, rest) = and_then-inv (push_edge adj v u) _ (rw (add_edges, q) at h) in
      elim (add_edges-only idx n u ds adj1 adj' k w rest edge) [
        | inr ((c, i, at), same) ↦ inr ((c, inr i, at), same)
        | inl old ↦ elim (push_edge-only adj adj1 v u k w e old) [
          | inl older ↦ inl older
          | inr (here, same) ↦ inr ((d, inl refl, q ∙ ap some here), same)
        ]
      ]
]

abbrev Depends : List (Str × ℕ) → List (Str × List Str) → ℕ → ℕ → Type 0
Depends idx deps k w =
    (n : Str) × (ds : List Str) × In (n, ds) deps × (Map.lookup n idx ≡ some w) × FromDeps idx ds k

and_then-ok :
    {A B : Type 0} (o : Option (Result A)) (f : A → Option (Result B)) {b : B}
    → and_then o (then_ok f) ≡ some (ok b)
    → (a : A) × (o ≡ some (ok a)) × (f a ≡ some (ok b))
and_then-ok none f h = cc
and_then-ok (some (ok a)) f h = (a, refl, h)
and_then-ok (some (err e)) f h = cc

add_deps-only :
    (idx : List (Str × ℕ)) (deps : List (Str × List Str)) (adj adj' : List (List ℕ)) (k w : ℕ)
    → add_deps idx deps adj ≡ some (ok adj')
    → Edge adj' k w
    → Edge adj k w ⊎ Depends idx deps k w
unfolding add_deps
add_deps-only idx [] adj adj' k w h edge =
    let same : adj ≡ adj' = cc in inl (subst (λ a. Edge a k w) (sym same) edge)
add_deps-only idx ((n, ds) ∷ deps) adj adj' k w h edge = elim (Option-cases (Map.lookup n idx)) [
  | inl q ↦ let gone = rw (add_deps, q) at h in cc
  | inr (u, q) ↦
      let (adj1, e, rest) = and_then-ok (add_edges idx n u ds adj) _ (rw (add_deps, q) at h) in
      elim (add_deps-only idx deps adj1 adj' k w rest edge) [
        | inr (m, cs, i, at, from) ↦ inr (m, cs, inr i, at, from)
        | inl old ↦ elim (add_edges-only idx n u ds adj adj1 k w e old) [
          | inl older ↦ inl older
          | inr (from, same) ↦ inr (n, ds, inl refl, q ∙ ap some same, from)
        ]
      ]
]

-- Module `n` lists `d` among its dependencies.
abbrev pub DependsOn : List (Str × List Str) → Str → Str → Type 0
DependsOn deps n d = (ds : List Str) × In (n, ds) deps × In d ds

-- The graph of the names and their dependencies, by index.
pub record IsGraph (deps : List (Str × List Str)) (names : List Str) (adj : List (List ℕ))
    (idx : List (Str × ℕ)) : Type 0 where
  pub size : length adj ≡ length names
  pub targets : Targets adj
  pub index : IsIndex names idx
  pub linked : All (Linked idx adj) deps
  pub only :
      (k w : ℕ)
      → Edge adj k w
      → (d n : Str) × (get_elem? names k ≡ some d)
        × (get_elem? names w ≡ some n)
        × DependsOn deps n d

module _ {H : Type 0} where
  abbrev pub GraphOf :
      RegistryBuilder H → Result (List Str × List (List ℕ) × List (Str × ℕ)) → Type 0
  GraphOf b (err e) = NameIsMissing (map (λ p. p.0) b.core) b.deps e
  GraphOf b (ok (names, adj, idx)) = (names ≡ map (λ p. p.0) b.core) × IsGraph b.deps names adj idx

  graph_of :
      (b : RegistryBuilder H) (names : List Str) (r : Result (List (List ℕ)))
      → names ≡ map (λ p. p.0) b.core
      → add_deps (index_names 0 names []) b.deps (no_edges names) ≡ some r
      → DepsAdded (index_names 0 names []) b.deps (no_edges names) r
      → (r' : Result (List Str × List (List ℕ) × List (Str × ℕ))) × (then_ok
            (λ adj. some (ok (names, adj, index_names 0 names [])))
            r
          ≡ some r')
        × GraphOf b r'
  graph_of b names (err e) same h unknown = (
    err e,
    refl,
    subst (λ ns. NameIsMissing ns b.deps e) same (IsUnknown-NameIsMissing names b.deps e unknown),
  )
  graph_of b names (ok adj) same h (g, linked) =
      let idx = index_names 0 names [] in
      let index = index_names-IsIndex names in
      (
        ok (names, adj, idx),
        refl,
        (
          same,
          record {
            size = g.size ∙ length-no_edges names;
            targets = λ k w edge. omega (arith, g.targets k w edge, g.size);
            index = index;
            linked = linked;
            only = λ k w edge. elim (add_deps-only idx b.deps (no_edges names) adj k w h edge) [
              | inl old ↦ absurd (no_edges-Targets names k w old)
              | inr (n, ds, i, at, (d, j, from)) ↦ (d, n, index d k from, index n w at, (ds, i, j))
            ];
          },
        ),
      )

  -- Whatever has been registered, build_dependency_graph answers without a panic. Its error names a
  -- module or a dependency that is not registered; else its graph has the registered modules for
  -- nodes and an edge from each dependency to its module, and no other.
  pub build_dependency_graph-GraphOf :
      (b : RegistryBuilder H)
      → (r : Result (List Str × List (List ℕ) × List (Str × ℕ))) × (build_dependency_graph b
          ≡ some r)
        × GraphOf b r
  unfolding build_dependency_graph
  build_dependency_graph-GraphOf b =
      let names = map (λ p. p.0) b.core in
      let idx = index_names 0 names [] in
      let (r, e, added) =
        add_deps-DepsAdded idx b.deps (no_edges names)
          (λ d v q. omega (
            arith,
            length-no_edges names,
            get_elem?-lt names v d (index_names-IsIndex names d v q),
          ))
          (λ k w edge. absurd (no_edges-Targets names k w edge)) in
      let (r', e', graph) = graph_of b names r refl e added in (r', and_then-some _ _ e ∙ e', graph)
