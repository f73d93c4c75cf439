-- ===== src/Cycles/Acyclic.antt =====
-- detect_cycle_with_path as a whole: it decides whether the graph has a cycle.
use hyperspot.Common.{
  ℕ, ◌+◌, ◌-◌, ◌≤◌, ◌<◌, ◌≡◌, refl, sym, subst, ◌∙◌, inl, inr, Option, none, some, List, [], ◌∷◌,
  length, get_elem?, get_elem?_total, In, arith, Str, nat_beq, nat_beq_iff, Bool-cases,
}
use hyperspot.Registry.Kahn.{and_then-some}
use hyperspot.Registry.Start.{get_elem?-lt}
use hyperspot.Registry.Edges.{Edge, Targets}
use hyperspot.Cycles.{
  Color, white, gray, black, all_white, Step, found, going, then_going, dfs, search_roots, cycle_of,
  detect_cycle_with_path,
}
use hyperspot.Cycles.Colors.{whites, get_elem?-all_white, all_white_size}
use hyperspot.Cycles.Search.{Closed, IsCycle, Inv, Searched}
use hyperspot.Cycles.Descent.{dfs-Searches}
use hyperspot.Cycles.Heights.{height, height-le, height_falls}

-- There is a rank that every edge raises.
abbrev pub IsAcyclic : List (List ℕ) → Type 0
IsAcyclic adj = (rank : ℕ → ℕ) × ((v w : ℕ) → Edge adj v w → rank v < rank w)

abbrev pub Verdict : List Str → List (List ℕ) → Option (List Str) → Type 0
Verdict names adj (some cycle) = IsCycle names adj cycle
Verdict names adj none = IsAcyclic adj

module _ (names : List Str) (adj : List (List ℕ)) (same_size : length adj ≡ length names)
    (targets : Targets adj) (fuel : ℕ) where
  -- What the search of the roots before `i` has left.
  record RootsDone (colors : List Color) (path finished : List ℕ) (i : ℕ) : Type 0 where
    on_root : path ≡ []
    inv : Inv names adj colors [] finished
    before : (x : ℕ) → x < i → In x finished
    enough : whites colors ≤ fuel

  abbrev AllSearched : Step → Type 0
  AllSearched (found cycle) = IsCycle names adj cycle
  AllSearched (going colors path) =
      (finished : List ℕ) × Closed adj finished × ((x : ℕ) → x < length adj → In x finished)

  abbrev Rest : List Str → ℕ → List Color → List ℕ → Type 0
  Rest left i colors path =
      (r : Step) × (search_roots fuel names adj left i colors path ≡ some r) × AllSearched r

  abbrev NextRoots : List Str → ℕ → Type 0
  NextRoots left i =
      (colors : List Color) (path finished : List ℕ)
      → RootsDone colors path finished i
      → Rest left i colors path

  before_next :
      (finished : List ℕ) (i : ℕ)
      → ((x : ℕ) → x < i → In x finished)
      → In i finished
      → (x : ℕ) → x < i + 1
      → In x finished
  before_next finished i before here x lt = elim (Bool-cases (nat_beq x i)) [
    | inl t ↦ subst (λ y. In y finished) (sym ((nat_beq_iff x i).0 t)) here
    | inr t ↦ before x (ground (arith, nat_beq_iff x i))
  ]

  root_step :
      (left : List Str) (i : ℕ) (colors : List Color) (path finished : List ℕ) (r : Step)
      → RootsDone colors path finished i
      → Searched names adj colors finished [] (i ∷ []) r
      → NextRoots left (i + 1)
      → (r' : Step) × (then_going (search_roots fuel names adj left (i + 1)) r ≡ some r')
        × AllSearched r'
  root_step left i colors path finished (found cycle) h s next = (found cycle, refl, s)
  root_step left i colors path finished (going colors1 path1) h s next =
      next colors1 path1 s.finished' (record {
        on_root = s.same_path;
        inv = s.inv;
        before =
            before_next s.finished' i (λ x lt. s.grows x (h.before x lt)) (s.reached i (inl refl));
        enough = omega (arith, s.fewer, h.enough);
      })

  root_color :
      (n : Str) (left : List Str) (i : ℕ) (colors : List Color) (path finished : List ℕ) (c : Color)
      → get_elem? colors i ≡ some c
      → RootsDone colors path finished i
      → NextRoots left (i + 1)
      → Rest (n ∷ left) i colors path
  unfolding search_roots
  root_color n left i colors path finished white e h next =
      let (r, searches, s) =
        dfs-Searches names adj same_size targets fuel i colors [] finished h.inv e tt h.enough in
      let (r', goes, all) = root_step left i colors path finished r h s next in
      (
        r',
        and_then-some _ _ e
            ∙ and_then-some _ _
                (subst (λ p. dfs fuel names adj i colors p ≡ some r) (sym h.on_root) searches)
            ∙ goes,
        all,
      )
  root_color n left i colors path finished gray e h next = absurd (h.inv.on_path i e)
  root_color n left i colors path finished black e h next =
      let (r, goes, all) = next colors path finished (record {
        on_root = h.on_root;
        inv = h.inv;
        before = before_next finished i h.before (h.inv.done i e);
        enough = h.enough;
      }) in
      (r, and_then-some _ _ e ∙ goes, all)

  search_roots-AllSearched :
      (left : List Str) (i : ℕ) → i + length left ≡ length names → NextRoots left i
  unfolding search_roots
  search_roots-AllSearched [] i at colors path finished h = (
    going colors path,
    refl,
    (finished, h.inv.closed, λ x lt. h.before x (omega (arith, at, lt, same_size))),
  )
  search_roots-AllSearched (n ∷ left) i at colors path finished h =
      let (c, e) = get_elem?_total colors i (omega (arith, h.inv.size, same_size, at)) in
      root_color n left i colors path finished c e h
        (search_roots-AllSearched left (i + 1) (omega (arith, at)))

  verdict : (r : Step) → AllSearched r → Verdict names adj (cycle_of r)
  verdict (found cycle) h = h
  verdict (going colors path) (finished, closed, all) = (
    λ x. length finished - height finished x,
    λ v w edge.
        let lt = get_elem?-lt adj v edge.0 edge.1 in
        omega (
          arith,
          height_falls adj finished v w closed (all v lt) edge,
          height-le finished v,
          height-le finished w,
        ),
  )

  -- With fuel for the number of modules, the search ends without a panic, on any graph whose edges
  -- lead to its nodes. The cycle that it reports is one, a walk along edges from a module to itself;
  -- and where it reports none, the graph has a rank that every edge raises, so it has no cycle.
  pub detect_cycle_with_path-Verdict :
      length names ≤ fuel
      → (r : Option (List Str)) × (detect_cycle_with_path fuel names adj ≡ some r)
        × Verdict names adj r
  unfolding detect_cycle_with_path
  detect_cycle_with_path-Verdict enough =
      let white_size = all_white_size names in
      let (r, e, all) =
        search_roots-AllSearched names 0 (omega arith) (all_white names) [] [] (record {
          on_root = refl;
          inv = record {
            size = omega (arith, white_size.0, same_size);
            bounds = λ i k. absurd k;
            on_path = λ w e. let no_gray = get_elem?-all_white names w gray e in cc;
            done = λ w e. let no_black = get_elem?-all_white names w black e in cc;
            closed = tt;
          };
          before = λ x lt. absurd (omega (arith, lt));
          enough = omega (arith, white_size.1, enough);
        }) in
      (cycle_of r, and_then-some _ _ e, verdict r all)
