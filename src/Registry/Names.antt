-- ===== src/Registry/Names.antt =====
-- build_dependency_graph and the sort after it: the order of the modules by their names.
use hyperspot.Common.{
  ℕ, zero, suc, ◌+◌, ◌≤◌, ◌<◌, ◌≡◌, refl, sym, ap, subst, ◌∙◌, ◌⊎◌, inl, inr, true, none, some,
  List, [], ◌∷◌, ◌++◌, length, get_elem?, In, All, arith, Str, text_key, nat_key, contains, nat_beq,
  nat_beq_iff, ◌==◌, map, Bool-cases,
}
use hyperspot.Common.Map
use hyperspot.Builder.{
  RegistryBuilder, RegistryError, unknown_dependency, Result, ok, err, unknown_module,
}
use hyperspot.Registry.{topo_sort}
use hyperspot.Registry.Degrees.{count}
use hyperspot.Registry.Kahn.{IsTopological, some-inj, and_then-some}
use hyperspot.Registry.Order.{topo_sort-IsTopological}
use hyperspot.Registry.Start.{get_elem?-lt}
use hyperspot.Registry.Graph.{index_names, no_edges, then_ok, build_dependency_graph}
use hyperspot.Registry.Edges.{Edge, HasEdge}
use hyperspot.Registry.Links.{Linked, IsUnknown, DepsAdded, add_deps-DepsAdded}

pub length-map : {A B : Type 0} (f : A → B) (xs : List A) → length (map f xs) ≡ length xs
length-map f [] = refl
length-map f (x ∷ xs) = omega (arith, length-map f xs)

-- `names[v]` is the name with the index `v`.
abbrev pub IsIndex : List Str → List (Str × ℕ) → Type 0
IsIndex names idx = (d : Str) (v : ℕ) → Map.lookup d idx ≡ some v → get_elem? names v ≡ some d

index_names-found :
    (i : ℕ) (names : List Str) (idx : List (Str × ℕ)) (d : Str) (v : ℕ)
    → Map.lookup d (index_names i names idx) ≡ some v
    → (Map.lookup d idx ≡ some v) ⊎ ((j : ℕ) × (v ≡ i + j) × (get_elem? names j ≡ some d))
unfolding index_names
index_names-found i [] idx d v h = inl h
index_names-found i (n ∷ names) idx d v h =
    elim (index_names-found (i + 1) names (Map.insert n i idx) d v h) [
      | inr (j, at, there) ↦ inr (suc j, omega (arith, at), there)
      | inl old ↦ elim (Bool-cases (n == d)) [
        | inl t ↦
            let here : some i ≡ some v = rw (Map.lookup-insert n d i idx, t) at old in
            inr (0, omega (arith, some-inj here), ap some ((text_key.agrees_iff n d).0 t))
        | inr t ↦ inl (rw (Map.lookup-insert n d i idx, t) at old)
      ]
    ]

pub index_names-IsIndex : (names : List Str) → IsIndex names (index_names 0 names [])
unfolding Map.lookup
index_names-IsIndex names d v h = elim (index_names-found 0 names [] d v h) [
  | inl none_yet ↦ cc
  | inr (j, at, there) ↦ subst (λ k. get_elem? names k ≡ some d) (omega (arith, at)) there
]

pub length-no_edges : (names : List Str) → length (no_edges names) ≡ length names
unfolding no_edges
length-no_edges [] = refl
length-no_edges (n ∷ names) = omega (arith, length-no_edges names)

pub no_edges-Targets : (names : List Str) (k w : ℕ) → ¬ Edge (no_edges names) k w
unfolding no_edges
no_edges-Targets [] k w (ws, e, i) = cc
no_edges-Targets (n ∷ names) zero w (ws, e, i) = subst (In w) (sym (some-inj e)) i
no_edges-Targets (n ∷ names) (suc k) w (ws, e, i) = no_edges-Targets names k w (ws, e, i)

count-In : (x : ℕ) (ws : List ℕ) → In x ws → 1 ≤ count x ws
count-In x [] h = absurd h
count-In x (w ∷ ws) (inl e) = ground (arith, nat_beq_iff w x)
count-In x (w ∷ ws) (inr h) = omega (arith, count-In x ws h)

-- In an order, what has an edge to a node stands before it.
pub IsTopological-before :
    (adj : List (List ℕ)) (done order pre post : List ℕ) (v x : ℕ)
    → IsTopological adj done order
    → order ≡ pre ++ x ∷ post
    → Edge adj v x
    → (contains v done ≡ true) ⊎ In v pre
IsTopological-before adj done [] [] post v x h e edge = cc
IsTopological-before adj done [] (p ∷ pre) post v x h e edge = cc
IsTopological-before adj done (y ∷ ys) [] post v x h e (ws, there, i) =
    let same : y ≡ x = cc in
    inl (h.0 v ws there (count-In y ws (subst (λ n. In n ws) (sym same) i)))
IsTopological-before adj done (y ∷ ys) (p ∷ pre) post v x h e edge =
    let same : y ≡ p = cc in
    let rest : ys ≡ pre ++ x ∷ post = cc in
    elim (IsTopological-before adj (y ∷ done) ys pre post v x h.2 rest edge) [
      | inr i ↦ inr (inr i)
      | inl t ↦ elim (Bool-cases (nat_beq y v)) [
        | inl now ↦ inr (inl (sym same ∙ (nat_beq_iff y v).0 now))
        | inr other ↦ inl (rw other at t)
      ]
    ]

-- The module has an index, and wherever it stands in the order all its dependencies stand before it.
abbrev pub StartsAfter : List Str → List ℕ → Str × List Str → Type 0
StartsAfter names order (n, ds) =
    (x : ℕ) × (get_elem? names x ≡ some n)
    × ((pre post : List ℕ)
        → order ≡ pre ++ x ∷ post
        → All (λ d. (v : ℕ) × (get_elem? names v ≡ some d) × In v pre) ds)

index_names-none :
    (i : ℕ) (names : List Str) (idx : List (Str × ℕ)) (d : Str)
    → Map.lookup d (index_names i names idx) ≡ none
    → (Map.lookup d idx ≡ none) × ¬ In d names
unfolding index_names
index_names-none i [] idx d h = (h, λ absent. absent)
index_names-none i (n ∷ names) idx d h =
    let (gone, absent) = index_names-none (i + 1) names (Map.insert n i idx) d h in
    elim (Bool-cases (n == d)) [
      | inl t ↦ let found : some i ≡ none = rw (Map.lookup-insert n d i idx, t) at gone in cc
      | inr t ↦ (
        rw (Map.lookup-insert n d i idx, t) at gone,
        elim [
          | inl e ↦ let eq : (n == d) ≡ true = (text_key.agrees_iff n d).1 e in cc
          | inr i ↦ absent i
        ],
      )
    ]

abbrev pub NameIsMissing : List Str → List (Str × List Str) → RegistryError → Type 0
NameIsMissing names deps e =
    (n : Str) × (ds : List Str) × In (n, ds) deps
    × (((¬ In n names) × (e ≡ unknown_module n))
        ⊎ ((d : Str) × In d ds × (¬ In d names) × (e ≡ unknown_dependency n d)))

pub IsUnknown-NameIsMissing :
    (names : List Str) (deps : List (Str × List Str)) (e : RegistryError)
    → IsUnknown (index_names 0 names []) deps e
    → NameIsMissing names deps e
IsUnknown-NameIsMissing names deps e (n, ds, i, inl (gone, same)) =
    (n, ds, i, inl ((index_names-none 0 names [] n gone).1, same))
IsUnknown-NameIsMissing names deps e (n, ds, i, inr (d, j, gone, same)) =
    (n, ds, i, inr (d, j, (index_names-none 0 names [] d gone).1, same))

deps_before :
    (names : List Str) (idx : List (Str × ℕ)) (adj : List (List ℕ)) (order pre post : List ℕ)
    (x : ℕ) (ds : List Str)
    → IsIndex names idx
    → IsTopological adj [] order
    → order ≡ pre ++ x ∷ post
    → All (HasEdge idx x adj) ds
    → All (λ d. (v : ℕ) × (get_elem? names v ≡ some d) × In v pre) ds
deps_before names idx adj order pre post x [] index top e h = tt
deps_before names idx adj order pre post x (d ∷ ds) index top e ((v, q, edge), rest) = (
  (
    v,
    index d v q,
    elim (IsTopological-before adj [] order pre post v x top e edge) [
      | inl none_done ↦ cc
      | inr i ↦ i
    ],
  ),
  deps_before names idx adj order pre post x ds index top e rest,
)

Linked-StartsAfter :
    (names : List Str) (idx : List (Str × ℕ)) (adj : List (List ℕ)) (order : List ℕ)
    (deps : List (Str × List Str))
    → IsIndex names idx
    → IsTopological adj [] order
    → All (Linked idx adj) deps
    → All (StartsAfter names order) deps
Linked-StartsAfter names idx adj order [] index top h = tt
Linked-StartsAfter names idx adj order ((n, ds) ∷ deps) index top ((u, q, edges), rest) = (
  (u, index n u q, λ pre post e. deps_before names idx adj order pre post u ds index top e edges),
  Linked-StartsAfter names idx adj order deps index top rest,
)

module _ {H : Type 0} where
  abbrev pub Outcome :
      ℕ → RegistryBuilder H → Result (List Str × List (List ℕ) × List (Str × ℕ)) → Type 0
  Outcome fuel b (err e) = NameIsMissing (map (λ p. p.0) b.core) b.deps e
  Outcome fuel b (ok (names, adj, idx)) =
      (names ≡ map (λ p. p.0) b.core)
      × ((order : List ℕ) × (topo_sort fuel adj ≡ some order)
          × All (StartsAfter names order) b.deps)

  outcome :
      (b : RegistryBuilder H) (fuel : ℕ) (names : List Str) (r : Result (List (List ℕ)))
      → names ≡ map (λ p. p.0) b.core
      → length names < fuel
      → DepsAdded (index_names 0 names []) b.deps (no_edges names) r
      → (r' : Result (List Str × List (List ℕ) × List (Str × ℕ))) × (then_ok
            (λ adj. some (ok (names, adj, index_names 0 names [])))
            r
          ≡ some r')
        × Outcome fuel b r'
  outcome b fuel names (err e) same enough unknown = (
    err e,
    refl,
    subst (λ ns. NameIsMissing ns b.deps e) same (IsUnknown-NameIsMissing names b.deps e unknown),
  )
  outcome b fuel names (ok adj) same enough (g, linked) =
      let size : length adj ≡ length names = g.size ∙ length-no_edges names in
      let (order, ends, top) =
        topo_sort-IsTopological adj fuel
          (λ k ws e w i. omega (arith, g.targets k w (ws, e, i), g.size))
          (omega (arith, size, enough)) in
      (
        _,
        refl,
        (
          same,
          (
            order,
            ends,
            Linked-StartsAfter names (index_names 0 names []) adj order b.deps
                (index_names-IsIndex names) top linked,
          ),
        ),
      )

  -- Whatever has been registered, build_dependency_graph answers without a panic. Its error names a
  -- module or a dependency that is not registered; else the sort of its graph ends, with fuel beyond
  -- the number of modules, and wherever a module stands in the order, all its dependencies stand
  -- before it.
  pub build_dependency_graph-Outcome :
      (b : RegistryBuilder H) (fuel : ℕ)
      → length b.core < fuel
      → (r : Result (List Str × List (List ℕ) × List (Str × ℕ))) × (build_dependency_graph b
          ≡ some r)
        × Outcome fuel b r
  unfolding build_dependency_graph
  build_dependency_graph-Outcome b fuel enough =
      let names = map (λ p. p.0) b.core in
      let (r, e, added) =
        add_deps-DepsAdded (index_names 0 names []) b.deps (no_edges names)
          (λ d v q. omega (
            arith,
            length-no_edges names,
            get_elem?-lt names v d (index_names-IsIndex names d v q),
          ))
          (λ k w edge. absurd (no_edges-Targets names k w edge)) in
      let (r', e', out) =
        outcome b fuel names r refl (omega (arith, enough, length-map (λ p. p.0) b.core)) added in
      (r', and_then-some _ _ e ∙ e', out)
