-- ===== src/Cycles/Descent.antt =====
-- The depth-first search from a node: fuel for the white nodes is enough.
use hyperspot.Common.{
  ℕ, zero, suc, ◌≤◌, ◌<◌, ◌≡◌, refl, sym, ap, subst, ◌∙◌, inl, inr, some, List, [], ◌∷◌, ◌++◌,
  length, get_elem?, get_elem?_total, In, In-append_split, In-append_left, In-append_right, arith,
  Str,
}
use hyperspot.Registry.{and_then}
use hyperspot.Registry.Kahn.{and_then-some, some-inj}
use hyperspot.Registry.Start.{get_elem?-lt}
use hyperspot.Registry.Edges.{Edge}
use hyperspot.Cycles.{
  Color, white, gray, black, set_color, pop, Step, found, going, then_going, dfs,
}
use hyperspot.Cycles.Colors.{whites, Recolored, set_color-Recolored, pop-append, whites_pos}
use hyperspot.Cycles.Search.{Inv, Searched, Searches, all_in, visit-Searched}

module _ (names : List Str) (adj : List (List ℕ)) where
  module _ (same_size : length adj ≡ length names) where
    -- Entering a node puts it on the path.
    enter-Inv :
        (colors colors1 : List Color) (path finished : List ℕ) (node : ℕ)
        → Inv names adj colors path finished
        → node < length adj
        → Recolored colors node gray colors1
        → Inv names adj colors1 (path ++ node ∷ []) finished
    enter-Inv colors colors1 path finished node inv lt r = record {
      size = r.size ∙ inv.size;
      bounds = λ i k. elim (In-append_split i path (node ∷ []) k) [
        | inl old ↦ inv.bounds i old
        | inr (inl same) ↦ omega (arith, same, lt)
        | inr (inr absent) ↦ absurd absent
      ];
      on_path = λ w e. elim (r.elsewhere w) [
        | inl same ↦ In-append_right w path (node ∷ []) (inl same)
        | inr q ↦ In-append_left w path (node ∷ []) (inv.on_path w (sym q ∙ e))
      ];
      done = λ w e. elim (r.elsewhere w) [
        | inl same ↦ let here = subst (λ j. get_elem? colors1 j ≡ some gray) same r.here in cc
        | inr q ↦ inv.done w (sym q ∙ e)
      ];
      closed = inv.closed;
    }

    -- Leaving a node whose successors are finished.
    leave-Inv :
        (colors colors1 : List Color) (path finished : List ℕ) (node : ℕ)
        → Inv names adj colors (path ++ node ∷ []) finished
        → ((w : ℕ) → Edge adj node w → In w finished)
        → Recolored colors node black colors1
        → Inv names adj colors1 path (node ∷ finished)
    leave-Inv colors colors1 path finished node inv after r = record {
      size = r.size ∙ inv.size;
      bounds = λ i k. inv.bounds i (In-append_left i path (node ∷ []) k);
      on_path = λ w e. elim (r.elsewhere w) [
        | inl same ↦ let here = subst (λ j. get_elem? colors1 j ≡ some black) same r.here in cc
        | inr q ↦ elim (In-append_split w path (node ∷ []) (inv.on_path w (sym q ∙ e))) [
          | inl old ↦ old
          | inr (inl same) ↦
              let here = subst (λ j. get_elem? colors1 j ≡ some black) same r.here in cc
          | inr (inr absent) ↦ absurd absent
        ]
      ];
      done = λ w e. elim (r.elsewhere w) [
        | inl same ↦ inl same
        | inr q ↦ inr (inv.done w (sym q ∙ e))
      ];
      closed = (after, inv.closed);
    }

    -- After the loop over the neighbours, the node is finished.
    leave :
        (colors colors1 : List Color) (path finished ws : List ℕ) (node : ℕ) (r : Step)
        → node < length adj
        → get_elem? adj node ≡ some ws
        → whites colors1 ≤ whites colors
        → Searched names adj colors1 finished (path ++ node ∷ []) ws r
        → (r' : Step) × (then_going
              (λ colors2 path2.
                and_then
                  (set_color colors2 node black)
                  (λ colors3. some (going colors3 (pop path2))))
              r
            ≡ some r')
          × Searched names adj colors finished path (node ∷ []) r'
    leave colors colors1 path finished ws node (found cycle) lt at less h = (found cycle, refl, h)
    leave colors colors1 path finished ws node (going colors2 path2) lt at less h =
        let bound : node < length colors2 = omega (arith, lt, h.inv.size) in
        let (colors3, e, r) = set_color-Recolored colors2 node black bound in
        let (c, was) = get_elem?_total colors2 node bound in
        (
          going colors3 (pop path2),
          and_then-some _ _ e,
          record {
            finished' = node ∷ h.finished';
            same_path = ap pop h.same_path ∙ pop-append path node;
            inv =
                leave-Inv colors2 colors3 path h.finished' node h.inv
                  (λ w (vs, there, k). h.reached w (subst (In w) (some-inj (sym there ∙ at)) k)) r;
            grows = λ x k. inr (h.grows x k);
            reached = all_in (node ∷ h.finished') [] node (inl refl) (λ x k. absurd k);
            fewer = omega (arith, r.fewer c was, h.fewer, less);
          },
        )

    pub dfs-Searches :
        ((k w : ℕ) → Edge adj k w → w < length adj)
        → (fuel : ℕ) → Searches names adj (dfs fuel names adj) fuel
    unfolding dfs
    dfs-Searches targets zero node colors path finished inv e chain enough =
        absurd (omega (arith, whites_pos colors node e, enough))
    dfs-Searches targets (suc fuel) node colors path finished inv e chain enough =
        let bound = get_elem?-lt colors node white e in
        let lt : node < length adj = omega (arith, bound, inv.size) in
        let (colors1, set, r) = set_color-Recolored colors node gray bound in
        let (ws, at) = get_elem?_total adj node lt in
        let less = r.fewer white e in
        let (s, visits, searched) =
          visit-Searched names adj same_size (dfs fuel names adj) fuel path node ws colors1 finished
            (dfs-Searches targets fuel) (enter-Inv colors colors1 path finished node inv lt r) chain
            (λ w k. (ws, at, k)) (λ w k. targets node w (ws, at, k))
            (omega (arith, less, enough)) in
        let (s', leaves, whole) =
          leave colors colors1 path finished ws node s lt at (omega (arith, less)) searched in
        (
          s',
          and_then-some _ _ set ∙ and_then-some _ _ at ∙ and_then-some _ _ visits ∙ leaves,
          whole,
        )
