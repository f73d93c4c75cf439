-- ===== src/Registry/Edges.antt =====
-- The loop of build_dependency_graph over the dependencies of one module.
use hyperspot.Common.{
  ℕ, zero, suc, ◌<◌, ◌≡◌, refl, sym, subst, ◌∙◌, ◌⊎◌, inl, inr, none, some, List, [], ◌∷◌, ◌++◌,
  length, get_elem?, In, All, In-append_left, In-append_right, In-append_split, arith, Str,
  text_key, Option-cases,
}
use hyperspot.Common.Map
use hyperspot.Builder.{RegistryError, Result, ok, err, unknown_dependency}
use hyperspot.Registry.Kahn.{some-inj, and_then-some}
use hyperspot.Registry.Graph.{push_edge, add_edges}

abbrev pub Edge : List (List ℕ) → ℕ → ℕ → Type 0
Edge adj v u = (ws : List ℕ) × (get_elem? adj v ≡ some ws) × In u ws

-- What a push does to the graph.
record Pushed (adj : List (List ℕ)) (v u : ℕ) (adj' : List (List ℕ)) : Type 0 where
  size : length adj' ≡ length adj
  keeps : (k w : ℕ) → Edge adj k w → Edge adj' k w
  adds : Edge adj' v u
  only : (k w : ℕ) → Edge adj' k w → Edge adj k w ⊎ (u ≡ w)

Pushed-head :
    (ws : List ℕ) (adj : List (List ℕ)) (u : ℕ) → Pushed (ws ∷ adj) 0 u ((ws ++ u ∷ []) ∷ adj)
Pushed-head ws adj u = record {
  size = refl;
  keeps = keep;
  adds = (_, refl, In-append_right u ws (u ∷ []) (inl refl));
  only = split;
}
  where
    keep : (k w : ℕ) → Edge (ws ∷ adj) k w → Edge ((ws ++ u ∷ []) ∷ adj) k w
    keep zero w (vs, e, i) =
        (_, refl, In-append_left w ws (u ∷ []) (subst (In w) (sym (some-inj e)) i))
    keep (suc k) w (vs, e, i) = (vs, e, i)

    split : (k w : ℕ) → Edge ((ws ++ u ∷ []) ∷ adj) k w → Edge (ws ∷ adj) k w ⊎ (u ≡ w)
    split zero w (vs, e, i) =
        elim (In-append_split w ws (u ∷ []) (subst (In w) (sym (some-inj e)) i)) [
          | inl old ↦ inl (ws, refl, old)
          | inr (inl new) ↦ inr new
          | inr (inr absent) ↦ absurd absent
        ]
    split (suc k) w (vs, e, i) = inl (vs, e, i)

Pushed-cons :
    (ws : List ℕ) (adj adj' : List (List ℕ)) (v u : ℕ)
    → Pushed adj v u adj'
    → Pushed (ws ∷ adj) (suc v) u (ws ∷ adj')
Pushed-cons ws adj adj' v u p = record {
  size = omega (arith, p.size);
  keeps = keep;
  adds = p.adds;
  only = split;
}
  where
    keep : (k w : ℕ) → Edge (ws ∷ adj) k w → Edge (ws ∷ adj') k w
    keep zero w (vs, e, i) = (vs, e, i)
    keep (suc k) w (vs, e, i) = p.keeps k w (vs, e, i)

    split : (k w : ℕ) → Edge (ws ∷ adj') k w → Edge (ws ∷ adj) k w ⊎ (u ≡ w)
    split zero w (vs, e, i) = inl (vs, e, i)
    split (suc k) w (vs, e, i) = p.only k w (vs, e, i)

push_edge-Pushed :
    (adj : List (List ℕ)) (v u : ℕ)
    → v < length adj
    → (adj' : List (List ℕ)) × (push_edge adj v u ≡ some adj') × Pushed adj v u adj'
unfolding push_edge
push_edge-Pushed [] v u lt = absurd (omega (arith, lt))
push_edge-Pushed (ws ∷ adj) zero u lt = (_, refl, Pushed-head ws adj u)
push_edge-Pushed (ws ∷ adj) (suc v) u lt =
    let (adj', e, p) = push_edge-Pushed adj v u (omega (arith, lt)) in
    (ws ∷ adj', and_then-some (push_edge adj v u) _ e, Pushed-cons ws adj adj' v u p)

-- What the loops do to the graph: no row and no edge is lost, and all edges lead to nodes.
pub record Grown (adj adj' : List (List ℕ)) : Type 0 where
  pub size : length adj' ≡ length adj
  pub keeps : (k w : ℕ) → Edge adj k w → Edge adj' k w
  pub targets : (k w : ℕ) → Edge adj' k w → w < length adj

abbrev pub Targets : List (List ℕ) → Type 0
Targets adj = (k w : ℕ) → Edge adj k w → w < length adj

Pushed-Targets :
    (adj adj' : List (List ℕ)) (v u : ℕ)
    → Pushed adj v u adj'
    → u < length adj
    → Targets adj
    → Targets adj'
Pushed-Targets adj adj' v u p lt targets k w edge = elim (p.only k w edge) [
  | inl old ↦ omega (arith, targets k w old, p.size)
  | inr same ↦ omega (arith, same, lt, p.size)
]

abbrev pub IndexesBelow : List (Str × ℕ) → ℕ → Type 0
IndexesBelow idx size = (d : Str) (v : ℕ) → Map.lookup d idx ≡ some v → v < size

abbrev pub HasEdge : List (Str × ℕ) → ℕ → List (List ℕ) → Str → Type 0
HasEdge idx u adj d = (v : ℕ) × (Map.lookup d idx ≡ some v) × Edge adj v u

-- A dependency of the module `n` that is not registered, and the error for it.
abbrev pub IsUnknownDependency : List (Str × ℕ) → Str → List Str → RegistryError → Type 0
IsUnknownDependency idx n ds e =
    (d : Str) × In d ds × (Map.lookup d idx ≡ none) × (e ≡ unknown_dependency n d)

abbrev pub EdgesAdded :
    List (Str × ℕ) → Str → ℕ → List Str → List (List ℕ) → Result (List (List ℕ)) → Type 0
EdgesAdded idx n u ds adj (err e) = IsUnknownDependency idx n ds e
EdgesAdded idx n u ds adj (ok adj') = Grown adj adj' × All (HasEdge idx u adj') ds

EdgesAdded-cons :
    (idx : List (Str × ℕ)) (n : Str) (u v : ℕ) (d : Str) (ds : List Str) (adj adj' : List (List ℕ))
    (r : Result (List (List ℕ)))
    → Map.lookup d idx ≡ some v
    → Pushed adj v u adj'
    → EdgesAdded idx n u ds adj' r
    → EdgesAdded idx n u (d ∷ ds) adj r
EdgesAdded-cons idx n u v d ds adj adj' (err e) q p (c, i, gone, same) = (c, inr i, gone, same)
EdgesAdded-cons idx n u v d ds adj adj' (ok adj'') q p (g, edges) = (
  record {
    size = g.size ∙ p.size;
    keeps = λ k w edge. g.keeps k w (p.keeps k w edge);
    targets = λ k w edge. omega (arith, g.targets k w edge, p.size);
  },
  ((v, q, g.keeps v u p.adds), edges),
)

pub add_edges-EdgesAdded :
    (idx : List (Str × ℕ)) (n : Str) (u : ℕ) (ds : List Str) (adj : List (List ℕ))
    → IndexesBelow idx (length adj)
    → u < length adj
    → Targets adj
    → (r : Result (List (List ℕ))) × (add_edges idx n u ds adj ≡ some r)
      × EdgesAdded idx n u ds adj r
unfolding add_edges
add_edges-EdgesAdded idx n u [] adj below lt targets =
    (ok adj, refl, (record { size = refl; keeps = λ k w edge. edge; targets = targets }, tt))
add_edges-EdgesAdded idx n u (d ∷ ds) adj below lt targets =
    elim (Option-cases (Map.lookup d idx)) [
      | inl q ↦ (err (unknown_dependency n d), rw (add_edges, q) refl, (d, inl refl, q, refl))
      | inr (v, q) ↦
          let (adj', e, p) = push_edge-Pushed adj v u (below d v q) in
          let (r, e', added) =
            add_edges-EdgesAdded idx n u ds adj'
              (λ c w there. omega (arith, below c w there, p.size)) (omega (arith, lt, p.size))
              (Pushed-Targets adj adj' v u p lt targets) in
          (
            r,
            rw (add_edges, q) (and_then-some (push_edge adj v u) _ e ∙ e'),
            EdgesAdded-cons idx n u v d ds adj adj' r q p added,
          )
    ]
