-- ===== src/Assembly/Outcome.antt =====
-- What build_topo_sorted answers, for any history of registrations.
use hyperspot.Common.{
  ℕ, suc, ◌≤◌, ◌<◌, ◌≡◌, refl, sym, ap, subst, ◌∙◌, ◌⊎◌, inl, inr, ◌↔◌, true, Option, none, some,
  List, [], ◌∷◌, length, get_elem?, get_elem?-In, In-get_elem?, In, All, arith, Str, text_key, ◌==◌,
  map, Bool-cases,
}
use hyperspot.Common.Map
use hyperspot.Common.Map.{UniqueKeys}
use hyperspot.Builder.{
  RegistryBuilder, RegistryError, ModuleRegistry, Result, ok, err, empty_builder,
  validate_capabilities, cycle_detected,
}
use hyperspot.Builder.Capabilities.{
  Registration, register_all, IsConsistent, validate_capabilities_iff,
  assemble_entries-register_all,
}
use hyperspot.Registry.{and_then, topo_sort}
use hyperspot.Registry.Kahn.{some-inj, and_then-some}
use hyperspot.Registry.Order.{topo_sort-IsTopological, topo_sort_complete}
use hyperspot.Registry.Graph.{then_ok}
use hyperspot.Registry.Names.{NameIsMissing}
use hyperspot.Cycles.{names_at, detect_cycle_with_path}
use hyperspot.Cycles.Colors.{names_at_total}
use hyperspot.Cycles.Acyclic.{IsAcyclic, Verdict, detect_cycle_with_path-Verdict}
use hyperspot.Assembly.{registry_of, sort_and_assemble, check_and_sort, build_topo_sorted}
use hyperspot.Assembly.Graph.{IsGraph, GraphOf, build_dependency_graph-GraphOf}
use hyperspot.Assembly.Order.{
  names_at-In, names_at_back, topo_sort_bounds, In_of_count, IsStartOrder, names-IsStartOrder,
}
use hyperspot.Assembly.Unique.{register_all-UniqueKeys}
use hyperspot.Assembly.Loop.{IsDependencyCycle, IsCycle-IsDependencyCycle}

all_of : {A : Type 0} {P : A → Type 0} (xs : List A) → ((x : A) → In x xs → P x) → All P xs
all_of [] h = tt
all_of (x ∷ xs) h = (h x (inl refl), all_of xs (λ y i. h y (inr i)))

module _ {V : Type 0} where
  contains_key-In :
      (m : List (Str × V)) (n : Str) → (Map.contains_key n m ≡ true) ↔ In n (map (λ p. p.0) m)
  unfolding Map.contains_key
  contains_key-In [] n = (λ h. cc, λ h. absurd h)
  contains_key-In ((k, w) ∷ m) n = elim (Bool-cases (k == n)) [
    | inl t ↦ (λ h. inl ((text_key.agrees_iff k n).0 t), λ h. rw t refl)
    | inr t ↦ (
      λ h. inr ((contains_key-In m n).0 (rw t at h)),
      elim [
        | inl e ↦ let eq : (k == n) ≡ true = (text_key.agrees_iff k n).1 e in cc
        | inr i ↦ rw t ((contains_key-In m n).1 i)
      ],
    )
  ]

module _ {H : Type 0} where
  -- A capability of no module, a dependency that is not registered, or a cycle.
  abbrev pub Failure : RegistryBuilder H → RegistryError → Type 0
  Failure b e =
      (validate_capabilities b ≡ err e)
      ⊎ (NameIsMissing (map (λ p. p.0) b.core) b.deps e
          ⊎ ((cycle : List Str) × (e ≡ cycle_detected cycle) × IsDependencyCycle b.deps cycle))

  -- The modules of the registry are those registered, each once and after those it depends on.
  pub record IsStarted (b : RegistryBuilder H) (r : ModuleRegistry H) : Type 0 where
    pub consistent : IsConsistent b
    pub all : (n : Str) → (Map.contains_key n b.core ≡ true) ↔ In n (map (λ e. e.name) r.modules)
    pub order : IsStartOrder b.deps (map (λ e. e.name) r.modules)

  abbrev pub Built : RegistryBuilder H → Result (ModuleRegistry H) → Type 0
  Built b (err e) = Failure b e
  Built b (ok r) = IsStarted b r

  module _ (rs : List (Registration H)) where
    abbrev registered : RegistryBuilder H
    registered = register_all empty_builder rs

    sorted_names :
        (names : List Str) (adj : List (List ℕ)) (idx : List (Str × ℕ)) (fuel : ℕ)
        → names ≡ map (λ p. p.0) registered.core
        → IsGraph registered.deps names adj idx
        → IsAcyclic adj
        → length names ≤ fuel
        → (order : List ℕ) × (ns : List Str) × (topo_sort (suc fuel) adj ≡ some order)
          × (names_at names order ≡ some ns)
          × ((n : Str) → (Map.contains_key n registered.core ≡ true) ↔ In n ns)
          × IsStartOrder registered.deps ns
    sorted_names names adj idx fuel same g (rank, up) enough =
        let size = g.size in
        let bounded = λ (k : ℕ) (ws : List ℕ) (e : get_elem? adj k ≡ some ws) (w : ℕ) (i : In w ws).
          g.targets k w (ws, e, i) in
        let room : length adj < suc fuel = omega (arith, size, enough) in
        let (order, ends, top) = topo_sort-IsTopological adj (suc fuel) bounded room in
        let (ns, named) =
          names_at_total names order
            (λ i k. omega (arith, topo_sort_bounds (suc fuel) adj order i ends k, size)) in
        let complete = λ (x : ℕ) (lt : x < length adj).
          topo_sort_complete adj (suc fuel) order rank x bounded room ends
            (λ v y ws e c. up v y (ws, e, In_of_count y ws c)) lt in
        (
          order,
          ns,
          ends,
          named,
          λ n. (
            λ h.
                let here = subst (In n) (sym same) ((contains_key-In registered.core n).0 h) in
                let (i, lt, at) = In-get_elem? n names here in
                let (m, at', there) =
                  names_at-In names order ns i named (complete i (omega (arith, lt, size))) in
                subst (λ c. In c ns) (some-inj (sym at' ∙ at)) there,
            λ i.
                let (x, k, at) = names_at_back names order ns n named i in
                (contains_key-In registered.core n).1 (subst (In n) same (get_elem?-In names x at)),
          ),
          names-IsStartOrder registered.core registered.deps names adj idx
              (register_all-UniqueKeys empty_builder rs tt) same g order ns top named,
        )

    sort_and_assemble-Built :
        (names : List Str) (adj : List (List ℕ)) (idx : List (Str × ℕ)) (fuel : ℕ)
        → validate_capabilities registered ≡ ok tt
        → names ≡ map (λ p. p.0) registered.core
        → IsGraph registered.deps names adj idx
        → IsAcyclic adj
        → length names ≤ fuel
        → (r : Result (ModuleRegistry H)) × (sort_and_assemble fuel registered names adj ≡ some r)
          × Built registered r
    unfolding sort_and_assemble
    sort_and_assemble-Built names adj idx fuel valid same g acyclic enough =
        let (order, ns, ends, named, all, start) =
          sorted_names names adj idx fuel same g acyclic enough in
        let (es, made, listed) =
          assemble_entries-register_all rs ns (all_of ns (λ n i. (all n).1 i)) in
        (
          registry_of registered (ok es),
          and_then-some _ _ ends ∙ and_then-some _ _ named ∙ rw made refl,
          record {
            consistent = (validate_capabilities_iff registered).0 valid;
            all = λ n.
                subst (λ l. (Map.contains_key n registered.core ≡ true) ↔ In n l) (sym listed)
                  (all n);
            order = subst (IsStartOrder registered.deps) (sym listed) start;
          },
        )

    check_and_sort-Built :
        (names : List Str) (adj : List (List ℕ)) (idx : List (Str × ℕ)) (fuel : ℕ)
        (cycle : Option (List Str))
        → validate_capabilities registered ≡ ok tt
        → names ≡ map (λ p. p.0) registered.core
        → IsGraph registered.deps names adj idx
        → length names ≤ fuel
        → Verdict names adj cycle
        → (r : Result (ModuleRegistry H)) × (check_and_sort fuel registered names adj cycle
            ≡ some r)
          × Built registered r
    unfolding check_and_sort
    check_and_sort-Built names adj idx fuel none valid same g enough acyclic =
        sort_and_assemble-Built names adj idx fuel valid same g acyclic enough
    check_and_sort-Built names adj idx fuel (some cycle) valid same g enough is_cycle = (
      err (cycle_detected cycle),
      refl,
      inr (
          inr (
            cycle,
            refl,
            IsCycle-IsDependencyCycle registered.deps names adj idx g cycle is_cycle,
          )),
    )

    graph-Built :
        (fuel : ℕ) (r : Result (List Str × List (List ℕ) × List (Str × ℕ)))
        → validate_capabilities registered ≡ ok tt
        → length (map (λ p. p.0) registered.core) ≤ fuel
        → GraphOf registered r
        → (r' : Result (ModuleRegistry H)) × (then_ok
              (λ (names, adj, idx).
                and_then
                  (detect_cycle_with_path fuel names adj)
                  (check_and_sort fuel registered names adj))
              r
            ≡ some r')
          × Built registered r'
    graph-Built fuel (err e) valid enough missing = (err e, refl, inr (inl missing))
    graph-Built fuel (ok (names, adj, idx)) valid enough (same, g) =
        let room : length names ≤ fuel = omega (arith, enough, ap length same) in
        let (cycle, detects, verdict) =
          detect_cycle_with_path-Verdict names adj g.size g.targets fuel room in
        let (r, checks, built) =
          check_and_sort-Built names adj idx fuel cycle valid same g room verdict in
        (r, and_then-some _ _ detects ∙ checks, built)

    validated-Built :
        (fuel : ℕ) (v : Result (Unit {0}))
        → validate_capabilities registered ≡ v
        → length (map (λ p. p.0) registered.core) ≤ fuel
        → (r : Result (ModuleRegistry H)) × (build_topo_sorted fuel registered ≡ some r)
          × Built registered r
    unfolding build_topo_sorted
    validated-Built fuel (err e) valid enough =
        (err e, rw (build_topo_sorted, valid) refl, inl valid)
    validated-Built fuel (ok u) valid enough =
        let (r, builds, graph) = build_dependency_graph-GraphOf registered in
        let (r', goes, built) = graph-Built fuel r valid enough graph in
        (r', rw (build_topo_sorted, valid) (and_then-some _ _ builds ∙ goes), built)

  -- After any registrations on an empty builder, with fuel for the number of modules,
  -- build_topo_sorted ends without a panic. Its error is one of the checks of the capabilities,
  -- names a module or a dependency that is not registered, or shows a cycle of modules that each
  -- depend on the one before. Its registry has exactly the registered modules, each once and after
  -- all modules that it depends on.
  pub build_topo_sorted-Built :
      (rs : List (Registration H)) (fuel : ℕ)
      → length (map (λ p. p.0) (register_all empty_builder rs).core) ≤ fuel
      → (r : Result (ModuleRegistry H)) × (build_topo_sorted fuel (register_all empty_builder rs)
          ≡ some r)
        × Built (register_all empty_builder rs) r
  build_topo_sorted-Built rs fuel enough = validated-Built rs fuel _ refl enough
