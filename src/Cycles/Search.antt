-- ===== src/Cycles/Search.antt =====
-- The loop of the depth-first search over the neighbours of a node: it ends without a panic, with
-- all of them finished, or it has found a cycle.
use hyperspot.Common.{
  ℕ, ◌≤◌, ◌<◌, ◌≡◌, refl, sym, ap, subst, ◌∙◌, inl, inr, Option, some, List, [], ◌∷◌, ◌++◌, length,
  get_elem?, get_elem?_total, In, In-append_right, arith, Str,
}
use mathlib.Core.List.{append_assoc}
use hyperspot.Registry.Kahn.{and_then-some}
use hyperspot.Registry.Edges.{Edge}
use hyperspot.Cycles.{
  Color, white, gray, black, path_from, names_at, Step, found, going, then_going, close_cycle,
  visit,
}
use hyperspot.Cycles.Colors.{whites, path_from-In, names_at_total, names_at-append}

-- Each node of the path has an edge to the next.
abbrev pub Chain : List (List ℕ) → List ℕ → Type 0
Chain adj [] = Unit
Chain adj (x ∷ []) = Unit
Chain adj (x ∷ y ∷ path) = Edge adj x y × Chain adj (y ∷ path)

-- The successors of a finished node were finished before it.
abbrev pub Closed : List (List ℕ) → List ℕ → Type 0
Closed adj [] = Unit
Closed adj (y ∷ finished) = ((w : ℕ) → Edge adj y w → In w finished) × Closed adj finished

-- A cycle by name: a walk along edges from a node to itself.
abbrev pub IsCycle : List Str → List (List ℕ) → List Str → Type 0
IsCycle names adj cycle =
    (v : ℕ) × (walk : List ℕ) × Chain adj (v ∷ walk ++ v ∷ [])
    × (names_at names (v ∷ walk ++ v ∷ []) ≡ some cycle)

Chain-drop :
    (adj : List (List ℕ)) (before rest : List ℕ) → Chain adj (before ++ rest) → Chain adj rest
Chain-drop adj [] rest h = h
Chain-drop adj (x ∷ []) [] h = tt
Chain-drop adj (x ∷ []) (y ∷ rest) h = h.1
Chain-drop adj (x ∷ y ∷ before) rest h = Chain-drop adj (y ∷ before) rest h.1

-- An edge from the end of the path makes it longer.
Chain-append :
    (adj : List (List ℕ)) (path : List ℕ) (u w : ℕ)
    → Chain adj (path ++ u ∷ [])
    → Edge adj u w
    → Chain adj ((path ++ u ∷ []) ++ w ∷ [])
Chain-append adj [] u w h e = (e, tt)
Chain-append adj (x ∷ []) u w h e = (h.0, (e, tt))
Chain-append adj (x ∷ y ∷ path) u w h e = (h.0, Chain-append adj (y ∷ path) u w h.1 e)

pub all_in :
    (finished ws : List ℕ) (w : ℕ)
    → In w finished
    → ((x : ℕ) → In x ws → In x finished)
    → (x : ℕ) → In x (w ∷ ws)
    → In x finished
all_in finished ws w i f x (inl e) = subst (λ y. In y finished) e i
all_in finished ws w i f x (inr k) = f x k

module _ (names : List Str) (adj : List (List ℕ)) where
  pub record Inv (colors : List Color) (path finished : List ℕ) : Type 0 where
    pub size : length colors ≡ length adj
    pub bounds : (i : ℕ) → In i path → i < length adj
    pub on_path : (w : ℕ) → get_elem? colors w ≡ some gray → In w path
    pub done : (w : ℕ) → get_elem? colors w ≡ some black → In w finished
    pub closed : Closed adj finished

  -- Where a descend goes on from `colors`, the path is as before, what was finished stays so, and
  -- the nodes asked for are finished.
  pub record Goes (colors : List Color) (finished : List ℕ) (path asked : List ℕ)
      (colors' : List Color) (path' : List ℕ) : Type 0 where
    pub finished' : List ℕ
    pub same_path : path' ≡ path
    pub inv : Inv colors' path finished'
    pub grows : (w : ℕ) → In w finished → In w finished'
    pub reached : (w : ℕ) → In w asked → In w finished'
    pub fewer : whites colors' ≤ whites colors

  abbrev pub Searched : List Color → List ℕ → List ℕ → List ℕ → Step → Type 0
  Searched colors finished path asked (found cycle) = IsCycle names adj cycle
  Searched colors finished path asked (going colors' path') =
      Goes colors finished path asked colors' path'

  -- What the recursive call does for a white node at the end of the path.
  abbrev pub Searches : (ℕ → List Color → List ℕ → Option Step) → ℕ → Type 0
  Searches descend fuel =
      (node : ℕ) (colors : List Color) (path finished : List ℕ)
      → Inv colors path finished
      → get_elem? colors node ≡ some white
      → Chain adj (path ++ node ∷ [])
      → whites colors ≤ fuel
      → (r : Step) × (descend node colors path ≡ some r)
        × Searched colors finished path (node ∷ []) r

  module _ (same_size : length adj ≡ length names) where
    -- A gray neighbour closes a cycle with the end of the path.
    close_cycle-IsCycle :
        (path : List ℕ) (u w : ℕ)
        → ((i : ℕ) → In i (path ++ u ∷ []) → i < length adj)
        → Chain adj (path ++ u ∷ [])
        → Edge adj u w
        → In w (path ++ u ∷ [])
        → (rest : List ℕ) × (cycle : List Str) × (path_from w (path ++ u ∷ []) ≡ some (w ∷ rest))
          × (close_cycle names w (w ∷ rest) ≡ some (found cycle))
          × IsCycle names adj cycle
    close_cycle-IsCycle path u w bounds chain edge i =
        let (before, rest, e, split) = path_from-In w (path ++ u ∷ []) i in
        let (ns, es) = names_at_total names (w ∷ rest) (λ j k.
          omega (arith, same_size, bounds j (rw split (In-append_right j before (w ∷ rest) k)))) in
        let (n, at) = get_elem?_total names w (omega (arith, same_size, bounds w i)) in
        let longer : Chain adj (before ++ (w ∷ rest ++ w ∷ [])) =
          subst (Chain adj) (ap (λ p. p ++ w ∷ []) split ∙ append_assoc before (w ∷ rest) (w ∷ []))
            (Chain-append adj path u w chain edge) in
        (
          rest,
          ns ++ n ∷ [],
          e,
          and_then-some _ _ es ∙ and_then-some _ _ at,
          (
            w,
            rest,
            Chain-drop adj before (w ∷ rest ++ w ∷ []) longer,
            names_at-append names (w ∷ rest) w ns n es at,
          ),
        )

    -- One more neighbour is finished, and the descend went on from there.
    Searched-after :
        (colors colors1 : List Color) (finished path path1 ws : List ℕ) (w : ℕ) (r : Step)
        (g : Goes colors finished path (w ∷ []) colors1 path1)
        → Searched colors1 g.finished' path ws r
        → Searched colors finished path (w ∷ ws) r
    Searched-after colors colors1 finished path path1 ws w (found cycle) g h = h
    Searched-after colors colors1 finished path path1 ws w (going colors' path') g h = record {
      finished' = h.finished';
      same_path = h.same_path;
      inv = h.inv;
      grows = λ x i. h.grows x (g.grows x i);
      reached = all_in h.finished' ws w (h.grows w (g.reached w (inl refl))) h.reached;
      fewer = omega (arith, h.fewer, g.fewer);
    }

    -- One more neighbour had been finished before.
    Searched-cons :
        (colors : List Color) (finished path ws : List ℕ) (w : ℕ) (r : Step)
        → In w finished
        → Searched colors finished path ws r
        → Searched colors finished path (w ∷ ws) r
    Searched-cons colors finished path ws w (found cycle) i h = h
    Searched-cons colors finished path ws w (going colors' path') i h = record {
      finished' = h.finished';
      same_path = h.same_path;
      inv = h.inv;
      grows = h.grows;
      reached = all_in h.finished' ws w (h.grows w i) h.reached;
      fewer = h.fewer;
    }

    -- What is to be shown of the neighbours `ws` that are left.
    abbrev Continues :
        (ℕ → List Color → List ℕ → Option Step) → List ℕ → List ℕ → List Color → Type 0
    Continues descend path ws colors =
        (colors1 : List Color) (finished1 : List ℕ)
        → Inv colors1 path finished1
        → whites colors1 ≤ whites colors
        → (r : Step) × (visit descend names ws colors1 path ≡ some r)
          × Searched colors1 finished1 path ws r

    by_step :
        (descend : ℕ → List Color → List ℕ → Option Step) (path : List ℕ) (w : ℕ) (ws : List ℕ)
        (colors : List Color) (finished : List ℕ) (r : Step)
        → Searched colors finished path (w ∷ []) r
        → Continues descend path ws colors
        → (r' : Step) × (then_going (visit descend names ws) r ≡ some r')
          × Searched colors finished path (w ∷ ws) r'
    by_step descend path w ws colors finished (found cycle) h next = (found cycle, refl, h)
    by_step descend path w ws colors finished (going colors1 path1) h next =
        let (r, e, s) = next colors1 h.finished' h.inv h.fewer in
        (
          r,
          subst (λ p. visit descend names ws colors1 p ≡ some r) (sym h.same_path) e,
          Searched-after colors colors1 finished path path1 ws w r h s,
        )

    by_color :
        (descend : ℕ → List Color → List ℕ → Option Step) (fuel : ℕ) (path : List ℕ) (u w : ℕ)
        (ws : List ℕ) (colors : List Color) (finished : List ℕ) (c : Color)
        → get_elem? colors w ≡ some c
        → Searches descend fuel
        → Inv colors (path ++ u ∷ []) finished
        → Chain adj (path ++ u ∷ [])
        → Edge adj u w
        → whites colors ≤ fuel
        → Continues descend (path ++ u ∷ []) ws colors
        → (r : Step) × (visit descend names (w ∷ ws) colors (path ++ u ∷ []) ≡ some r)
          × Searched colors finished (path ++ u ∷ []) (w ∷ ws) r
    unfolding visit
    by_color descend fuel path u w ws colors finished gray e rec inv chain edge enough next =
        let (rest, cycle, from, closes, is_cycle) =
          close_cycle-IsCycle path u w inv.bounds chain edge (inv.on_path w e) in
        (found cycle, and_then-some _ _ e ∙ rw from closes, is_cycle)
    by_color descend fuel path u w ws colors finished white e rec inv chain edge enough next =
        let (r, searched, s) =
          rec w colors (path ++ u ∷ []) finished inv e (Chain-append adj path u w chain edge)
            enough in
        let (r', goes, s') = by_step descend (path ++ u ∷ []) w ws colors finished r s next in
        (r', and_then-some _ _ e ∙ and_then-some _ _ searched ∙ goes, s')
    by_color descend fuel path u w ws colors finished black e rec inv chain edge enough next =
        let path' = path ++ u ∷ [] in
        let (r, goes, s) = next colors finished inv (omega arith) in
        (r, and_then-some _ _ e ∙ goes, Searched-cons colors finished path' ws w r (inv.done w e) s)

    pub visit-Searched :
        (descend : ℕ → List Color → List ℕ → Option Step) (fuel : ℕ) (path : List ℕ) (u : ℕ)
        (ws : List ℕ) (colors : List Color) (finished : List ℕ)
        → Searches descend fuel
        → Inv colors (path ++ u ∷ []) finished
        → Chain adj (path ++ u ∷ [])
        → ((w : ℕ) → In w ws → Edge adj u w)
        → ((w : ℕ) → In w ws → w < length adj)
        → whites colors ≤ fuel
        → (r : Step) × (visit descend names ws colors (path ++ u ∷ []) ≡ some r)
          × Searched colors finished (path ++ u ∷ []) ws r
    unfolding visit
    visit-Searched descend fuel path u [] colors finished rec inv chain edges targets enough = (
      going colors (path ++ u ∷ []),
      refl,
      record {
        finished' = finished;
        same_path = refl;
        inv = inv;
        grows = λ x k. k;
        reached = λ x k. absurd k;
        fewer = omega arith;
      },
    )
    visit-Searched descend fuel path u (w ∷ ws) colors finished rec inv chain edges targets enough =
        let (c, e) = get_elem?_total colors w (omega (arith, inv.size, targets w (inl refl))) in
        by_color descend fuel path u w ws colors finished c e rec inv chain (edges w (inl refl))
          enough
          (λ colors1 finished1 inv1 less.
            visit-Searched descend fuel path u ws colors1 finished1 rec inv1 chain
              (λ x k. edges x (inr k)) (λ x k. targets x (inr k)) (omega (arith, less, enough)))
