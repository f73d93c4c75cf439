-- ===== src/Registry/Tests.antt =====
-- A graph of three modules (0 before 1 and 2, and 1 before 2), and two registered modules.
use hyperspot.Common.{
  ℕ, zero, suc, ◌<◌, ◌≤◌, ◌≡◌, refl, sym, subst, inl, inr, some, List, [], ◌∷◌, In, get_elem?,
  arith, Str,
}
use hyperspot.Registry.{
  topo_sort, kahn, degrees, zeros, sources, increments, increment, relax, decrement,
}
use hyperspot.Registry.Degrees.{count}
use hyperspot.Registry.Kahn.{Bounded, IsTopological, some-inj}
use hyperspot.Registry.Order.{topo_sort-IsTopological, topo_sort_complete}
use hyperspot.Common.Map
use hyperspot.Builder.{RegistryBuilder, Result, ok, empty_builder}
use hyperspot.Registry.Graph.{
  build_dependency_graph, add_deps, add_edges, push_edge, index_names, no_edges,
}
use hyperspot.Registry.Names.{Outcome, build_dependency_graph-Outcome}

abbrev graph : List (List ℕ)
graph = (2 ∷ 1 ∷ []) ∷ (2 ∷ []) ∷ [] ∷ []

order_of_graph : topo_sort 4 graph ≡ some (0 ∷ 1 ∷ 2 ∷ [])
unfolding topo_sort kahn degrees zeros sources increments increment relax decrement
order_of_graph = refl

of_zero : (w : ℕ) → In w (2 ∷ 1 ∷ []) → w < 3
of_zero w (inl e) = omega (arith, e)
of_zero w (inr (inl e)) = omega (arith, e)
of_zero w (inr (inr absent)) = absurd absent

of_one : (w : ℕ) → In w (2 ∷ []) → w < 3
of_one w (inl e) = omega (arith, e)
of_one w (inr absent) = absurd absent

targets : Bounded graph
targets zero ws there w i = of_zero w (subst (In w) (sym (some-inj there)) i)
targets (suc zero) ws there w i = of_one w (subst (In w) (sym (some-inj there)) i)
targets (suc (suc zero)) ws there w i = absurd (subst (In w) (sym (some-inj there)) i)
targets (suc (suc (suc k))) ws there w i = cc

topo_sort-IsTopological_example :
    (order : List ℕ) × (topo_sort 4 graph ≡ some order) × IsTopological graph [] order
topo_sort-IsTopological_example = topo_sort-IsTopological graph 4 targets (omega arith)

rises : (v y : ℕ) (ws : List ℕ) → get_elem? graph v ≡ some ws → 1 ≤ count y ws → v < y
rises zero y ws there edge =
    let e : 1 ≤ count y (2 ∷ 1 ∷ []) = subst (λ l. 1 ≤ count y l) (sym (some-inj there)) edge in
    ground arith
rises (suc zero) y ws there edge =
    let e : 1 ≤ count y (2 ∷ []) = subst (λ l. 1 ≤ count y l) (sym (some-inj there)) edge in
    ground arith
rises (suc (suc zero)) y ws there edge =
    let e : 1 ≤ 0 = subst (λ l. 1 ≤ count y l) (sym (some-inj there)) edge in
    absurd (omega (arith, e))
rises (suc (suc (suc v))) y ws there edge = cc

topo_sort_complete_example : In {A = ℕ} 2 (0 ∷ 1 ∷ 2 ∷ [])
topo_sort_complete_example =
    topo_sort_complete graph 4 (0 ∷ 1 ∷ 2 ∷ []) (λ x. x) 2 targets (omega arith) order_of_graph
      rises (omega arith)

-- Two modules, the first depending on the second.
abbrev two_modules : RegistryBuilder ℕ
two_modules = record empty_builder {
  core = ((97 ∷ []), 1) ∷ ((98 ∷ []), 2) ∷ [];
  deps = ((97 ∷ []), (98 ∷ []) ∷ []) ∷ ((98 ∷ []), []) ∷ [];
}

graph_of_two :
    build_dependency_graph two_modules
    ≡ some
        (ok ((97 ∷ []) ∷ (98 ∷ []) ∷ [], [] ∷ (0 ∷ []) ∷ [], ((97 ∷ []), 0) ∷ ((98 ∷ []), 1) ∷ []))
unfolding build_dependency_graph add_deps add_edges push_edge index_names no_edges Map.insert
    Map.lookup
graph_of_two = refl

build_dependency_graph-Outcome_example :
    (r : Result (List Str × List (List ℕ) × List (Str × ℕ))) × (build_dependency_graph two_modules
      ≡ some r)
    × Outcome 3 two_modules r
build_dependency_graph-Outcome_example = build_dependency_graph-Outcome two_modules 3 (omega arith)
