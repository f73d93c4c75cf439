-- ===== src/Cycles/Heights.antt =====
-- A rank from the order in which the search finishes nodes.
use hyperspot.Common.{
  ℕ, zero, suc, ◌≤◌, ◌<◌, ◌≡◌, sym, subst, inl, inr, List, [], ◌∷◌, length, In, arith, nat_beq,
  nat_beq_iff, if◌then◌else◌,
}
use hyperspot.Registry.Edges.{Edge}
use hyperspot.Registry.Degrees.{zero_or_pos}
use hyperspot.Cycles.Search.{Closed}

-- How early a node was finished: 0 if it is not.
abbrev pub height : List ℕ → ℕ → ℕ
height [] x = 0
height (y ∷ finished) x = elim (height finished x) [
  | zero ↦ if nat_beq y x then suc (length finished) else 0
  | suc h ↦ suc h
]

pub height-le : (finished : List ℕ) (x : ℕ) → height finished x ≤ length finished
height-le [] x = omega arith
height-le (y ∷ finished) x = ground (arith, height-le finished x)

height_pos : (finished : List ℕ) (x : ℕ) → In x finished → 1 ≤ height finished x
height_pos [] x i = absurd i
height_pos (y ∷ finished) x (inl e) = ground (arith, nat_beq_iff y x)
height_pos (y ∷ finished) x (inr i) = ground (arith, height_pos finished x i)

height-cons :
    (y : ℕ) (finished : List ℕ) (x : ℕ)
    → 1 ≤ height finished x
    → height (y ∷ finished) x ≡ height finished x
height-cons y finished x h = ground arith

Closed-In :
    (adj : List (List ℕ)) (finished : List ℕ) (v w : ℕ)
    → Closed adj finished
    → In v finished
    → Edge adj v w
    → In w finished
Closed-In adj [] v w h i edge = absurd i
Closed-In adj (y ∷ finished) v w h (inl e) edge =
    inr (h.0 w (subst (λ u. Edge adj u w) (sym e) edge))
Closed-In adj (y ∷ finished) v w h (inr i) edge = inr (Closed-In adj finished v w h.1 i edge)

In_of_height : (finished : List ℕ) (x : ℕ) → 1 ≤ height finished x → In x finished
In_of_height [] x h = absurd (omega (arith, h))
In_of_height (y ∷ finished) x h = elim (zero_or_pos (height finished x)) [
  | inr p ↦ inr (In_of_height finished x p)
  | inl z ↦ inl (ground (arith, nat_beq_iff y x))
]

height_last :
    (y : ℕ) (finished : List ℕ) (x : ℕ)
    → height finished x ≡ 0
    → y ≡ x
    → height (y ∷ finished) x ≡ suc (length finished)
height_last y finished x z e = ground (arith, nat_beq_iff y x)

pub height_falls :
    (adj : List (List ℕ)) (finished : List ℕ) (v w : ℕ)
    → Closed adj finished
    → In v finished
    → Edge adj v w
    → height finished w < height finished v
height_falls adj [] v w h i edge = absurd i
height_falls adj (y ∷ finished) v w h i edge = elim (zero_or_pos (height finished v)) [
  | inr p ↦
      let old = In_of_height finished v p in
      let target = Closed-In adj finished v w h.1 old edge in
      omega (
        arith,
        height-cons y finished v p,
        height-cons y finished w (height_pos finished w target),
        height_falls adj finished v w h.1 old edge,
      )
  | inl z ↦
      let first : y ≡ v = elim i [
        | inl e ↦ e
        | inr j ↦ absurd (omega (arith, z, height_pos finished v j))
      ] in
      let target = h.0 w (subst (λ u. Edge adj u w) (sym first) edge) in
      omega (
        arith,
        height_last y finished v z first,
        height-cons y finished w (height_pos finished w target),
        height-le finished w,
      )
]
