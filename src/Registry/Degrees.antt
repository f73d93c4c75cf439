-- ===== src/Registry/Degrees.antt =====
-- Degrees as counts of the edges that come from nodes not yet taken.
use hyperspot.Common.{
  ℕ, zero, suc, ◌+◌, ◌≤◌, ◌<◌, ◌≡◌, refl, ap, subst, ◌⊎◌, inl, inr, false, some, List, [], ◌∷◌,
  get_elem?, contains, nat_key, nat_beq, nat_beq_iff, if◌then◌else◌, arith, Bool-cases,
}

abbrev pub count : ℕ → List ℕ → ℕ
count x [] = 0
count x (w ∷ ws) = (if nat_beq w x then 1 else 0) + count x ws

-- The sum of `c` over the lists, from index `i` on, whose index is not among those done.
abbrev pub left : (List ℕ → ℕ) → List ℕ → ℕ → List (List ℕ) → ℕ
left c done i [] = 0
left c done i (ws ∷ adj) = (if contains i done then 0 else c ws) + left c done (i + 1) adj

left-skip :
    (c : List ℕ → ℕ) (u : ℕ) (done : List ℕ) (i : ℕ) (adj : List (List ℕ))
    → u < i
    → left c (u ∷ done) i adj ≡ left c done i adj
left-skip c u done i [] h = refl
left-skip c u done i (ws ∷ adj) h =
    ground (arith, nat_beq_iff u i, left-skip c u done (i + 1) adj (omega arith))

pub zero_or_pos : (n : ℕ) → (n ≡ 0) ⊎ (1 ≤ n)
zero_or_pos zero = inl refl
zero_or_pos (suc n) = inr (omega arith)

-- Taking a node takes what it counts off.
pub left-take :
    (c : List ℕ → ℕ) (done : List ℕ) (i k u : ℕ) (adj : List (List ℕ)) (ws : List ℕ)
    → get_elem? adj k ≡ some ws
    → u ≡ i + k
    → contains u done ≡ false
    → left c done i adj ≡ c ws + left c (u ∷ done) i adj
left-take c done i k u [] ws there at fresh = cc
left-take c done i zero u (vs ∷ adj) ws there at fresh =
    let same : vs ≡ ws = cc in
    let here : u ≡ i = omega (arith, at) in
    let fresh' : contains i done ≡ false = subst (λ n. contains n done ≡ false) here fresh in
    let skip = left-skip c u done (i + 1) adj (omega arith) in
    let counted = ap c same in ground (arith, nat_beq_iff u i)
left-take c done i (suc k) u (vs ∷ adj) ws there at fresh =
    let rest = left-take c done (i + 1) k u adj ws there (omega (arith, at)) fresh in
    ground (arith, nat_beq_iff u i)

-- A count of 0 counts nothing at any node that is left.
pub left-zero :
    (c : List ℕ → ℕ) (done : List ℕ) (i k v : ℕ) (adj : List (List ℕ)) (ws : List ℕ)
    → left c done i adj ≡ 0
    → get_elem? adj k ≡ some ws
    → v ≡ i + k
    → contains v done ≡ false
    → c ws ≡ 0
left-zero c done i k v adj ws none_left there at fresh =
    omega (arith, left-take c done i k v adj ws there at fresh)

-- A node that is left and that the count counts at.
abbrev pub Counted : (List ℕ → ℕ) → List ℕ → ℕ → List (List ℕ) → Type 0
Counted c done i adj =
    (k : ℕ) × (ws : List ℕ) × (get_elem? adj k ≡ some ws)
    × (contains (i + k) done ≡ false)
    × (1 ≤ c ws)

Counted-cons :
    (c : List ℕ → ℕ) (done : List ℕ) (i : ℕ) (ws : List ℕ) (adj : List (List ℕ))
    → Counted c done (i + 1) adj
    → Counted c done i (ws ∷ adj)
Counted-cons c done i ws adj (k, vs, there, fresh, edge) =
    (suc k, vs, there, subst (λ n. contains n done ≡ false) (omega arith) fresh, edge)

-- A count that is not 0 counts something at some node that is left.
pub left-pos :
    (c : List ℕ → ℕ) (done : List ℕ) (i : ℕ) (adj : List (List ℕ))
    → 1 ≤ left c done i adj
    → Counted c done i adj
left-pos c done i [] h = absurd (omega (arith, h))
left-pos c done i (ws ∷ adj) h =
    let deeper : 1 ≤ left c done (i + 1) adj → Counted c done i (ws ∷ adj) =
      λ p. Counted-cons c done i ws adj (left-pos c done (i + 1) adj p) in
    elim (Bool-cases (contains i done)) [
      | inl e ↦ deeper (omega (arith, rw e at h))
      | inr e ↦ elim (zero_or_pos (c ws)) [
        | inl z ↦ deeper (omega (arith, z, rw e at h))
        | inr p ↦ (0, ws, refl, subst (λ n. contains n done ≡ false) (omega arith) e, p)
      ]
    ]

-- With nothing done, everything is counted.
pub degree_of : ℕ → List (List ℕ) → ℕ
degree_of x adj = left (count x) [] 0 adj
