-- ===== src/Assembly/Loop.antt =====
-- A cycle of the graph, read as a cycle of the modules' dependencies.
use hyperspot.Common.{ℕ, ◌≡◌, sym, ap, subst, ◌∙◌, some, List, [], ◌∷◌, ◌++◌, get_elem?, Str}
use hyperspot.Registry.Kahn.{some-inj}
use hyperspot.Registry.Edges.{Edge}
use hyperspot.Cycles.{names_at}
use hyperspot.Cycles.Search.{Chain, IsCycle}
use hyperspot.Assembly.Graph.{IsGraph, DependsOn}
use hyperspot.Assembly.Order.{names_at-cons}

-- Each name depends on the one before it.
abbrev pub NameChain : List (Str × List Str) → List Str → Type 0
NameChain deps [] = Unit
NameChain deps (d ∷ []) = Unit
NameChain deps (d ∷ n ∷ ns) = DependsOn deps n d × NameChain deps (n ∷ ns)

-- A list of modules from one of them to itself, in which each depends on the one before it.
abbrev pub IsDependencyCycle : List (Str × List Str) → List Str → Type 0
IsDependencyCycle deps cycle =
    (n : Str) × (walk : List Str) × (cycle ≡ n ∷ walk ++ n ∷ []) × NameChain deps cycle

names_at_last :
    (names : List Str) (is : List ℕ) (i : ℕ) (ns : List Str)
    → names_at names (is ++ i ∷ []) ≡ some ns
    → (ms : List Str) × (n : Str) × (ns ≡ ms ++ n ∷ []) × (get_elem? names i ≡ some n)
unfolding names_at
names_at_last names [] i ns h =
    let (n, ms, here, later, whole) = names_at-cons names i [] ns h in
    let empty : ms ≡ [] = sym (some-inj later) in ([], n, sym whole ∙ ap (λ l. n ∷ l) empty, here)
names_at_last names (j ∷ is) i ns h =
    let (m, ms, here, later, whole) = names_at-cons names j (is ++ i ∷ []) ns h in
    let (ks, n, split, at) = names_at_last names is i ms later in
    (m ∷ ks, n, sym whole ∙ ap (λ l. m ∷ l) split, at)

module _ (deps : List (Str × List Str)) (names : List Str) (adj : List (List ℕ))
    (idx : List (Str × ℕ)) (g : IsGraph deps names adj idx) where
  step_name :
      (x y : ℕ) (d n : Str)
      → get_elem? names x ≡ some d
      → get_elem? names y ≡ some n
      → Edge adj x y
      → DependsOn deps n d
  step_name x y d n at at' edge =
      let (d', n', found, found', dep) = g.only x y edge in
      let same : d' ≡ d = some-inj (sym found ∙ at) in
      let same' : n' ≡ n = some-inj (sym found' ∙ at') in
      subst (λ c. DependsOn deps n c) same (subst (λ c. DependsOn deps c d') same' dep)

  Chain-NameChain :
      (is : List ℕ) (ns : List Str) → names_at names is ≡ some ns → Chain adj is → NameChain deps ns
  unfolding names_at
  Chain-NameChain [] ns h c = subst (NameChain deps) (some-inj h) tt
  Chain-NameChain (x ∷ []) ns h c =
      let (n, ms, here, later, whole) = names_at-cons names x [] ns h in
      subst (NameChain deps) whole (subst (λ l. NameChain deps (n ∷ l)) (some-inj later) tt)
  Chain-NameChain (x ∷ y ∷ is) ns h c =
      let (d, ms, here, later, whole) = names_at-cons names x (y ∷ is) ns h in
      let (n, ks, here', later', whole') = names_at-cons names y is ms later in
      let rest = subst (NameChain deps) (sym whole') (Chain-NameChain (y ∷ is) ms later c.1) in
      subst (NameChain deps) (ap (λ l. d ∷ l) whole' ∙ whole)
        (step_name x y d n here here' c.0, rest)

  pub IsCycle-IsDependencyCycle :
      (cycle : List Str) → IsCycle names adj cycle → IsDependencyCycle deps cycle
  IsCycle-IsDependencyCycle cycle (v, walk, chain, named) =
      let (n, ms, here, later, whole) = names_at-cons names v (walk ++ v ∷ []) cycle named in
      let (ks, n', split, at) = names_at_last names walk v ms later in
      let same : n' ≡ n = some-inj (sym at ∙ here) in
      (
        n,
        ks,
        sym whole ∙ ap (λ l. n ∷ l) split ∙ ap (λ m. n ∷ ks ++ m ∷ []) same,
        Chain-NameChain (v ∷ walk ++ v ∷ []) cycle named chain,
      )
