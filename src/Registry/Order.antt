-- ===== src/Registry/Order.antt =====
-- The topological sort as a whole.
use hyperspot.Common.{
  ℕ, zero, suc, ◌+◌, ◌≤◌, ◌<◌, ◌≡◌, refl, sym, subst, ◌∙◌, inl, inr, some, List, [], ◌∷◌, length,
  get_elem?, In, arith,
}
use hyperspot.Registry.{degrees, zeros, sources, topo_sort}
use hyperspot.Registry.Degrees.{count, left}
use hyperspot.Registry.Kahn.{Bounded, IsTopological, Sorted, kahn-Sorted, and_then-some, some-inj}
use hyperspot.Registry.Start.{degrees-Inv, get_elem?-lt}

left-all : (i : ℕ) (adj : List (List ℕ)) → left (λ ws. 1) [] i adj ≡ length adj
left-all i [] = refl
left-all i (ws ∷ adj) = omega (arith, left-all (i + 1) adj)

topo_sort-Sorted :
    (adj : List (List ℕ)) (fuel : ℕ)
    → Bounded adj
    → length adj < fuel
    → (order : List ℕ) × (topo_sort fuel adj ≡ some order) × Sorted adj [] order
unfolding topo_sort
topo_sort-Sorted adj fuel targets enough =
    let (indeg, counted, inv) = degrees-Inv adj targets in
    let (order, ends, sorted) =
      kahn-Sorted adj fuel [] (sources 0 indeg) indeg targets inv
        (omega (arith, enough, left-all 0 adj)) in
    (order, and_then-some (degrees adj (zeros adj)) _ counted ∙ ends, sorted)

-- Fuel beyond the number of nodes is enough for the sort of any graph whose edges lead to its nodes: it
-- ends without a panic, and in the order that it gives, each node comes once and after all nodes
-- that have an edge to it.
pub topo_sort-IsTopological :
    (adj : List (List ℕ)) (fuel : ℕ)
    → Bounded adj
    → length adj < fuel
    → (order : List ℕ) × (topo_sort fuel adj ≡ some order) × IsTopological adj [] order
topo_sort-IsTopological adj fuel targets enough =
    let (order, ends, sorted) = topo_sort-Sorted adj fuel targets enough in
    (order, ends, sorted.topological)

module _ (adj : List (List ℕ)) (order : List ℕ) (sorted : Sorted adj [] order) (rank : ℕ → ℕ) where
  reached :
      ((v x : ℕ) (ws : List ℕ) → get_elem? adj v ≡ some ws → 1 ≤ count x ws → rank v < rank x)
      → (bound x : ℕ) → rank x < bound
      → x < length adj
      → In x order
  reached up zero x below lt = absurd (omega (arith, below))
  reached up (suc bound) x below lt = elim (sorted.complete x lt) [
    | inl (inl no_one) ↦ cc
    | inl (inr i) ↦ i
    | inr (v, ws, there, edge, fresh, absent) ↦ absurd (
        absent (
          reached up bound v (omega (arith, up v x ws there edge, below))
            (get_elem?-lt adj v ws there)))
  ]

-- In a graph without cycles, one with a rank that every edge raises, no node is left out of the
-- order; where every edge leads to a node and the fuel exceeds the number of nodes.
pub topo_sort_complete :
    (adj : List (List ℕ)) (fuel : ℕ) (order : List ℕ) (rank : ℕ → ℕ) (x : ℕ)
    → Bounded adj
    → length adj < fuel
    → topo_sort fuel adj ≡ some order
    → ((v y : ℕ) (ws : List ℕ) → get_elem? adj v ≡ some ws → 1 ≤ count y ws → rank v < rank y)
    → x < length adj
    → In x order
topo_sort_complete adj fuel order rank x targets enough gives up lt =
    let (order', ends, sorted) = topo_sort-Sorted adj fuel targets enough in
    subst (In x) (some-inj (sym ends ∙ gives))
      (reached adj order' sorted rank up (rank x + 1) x (omega arith) lt)
