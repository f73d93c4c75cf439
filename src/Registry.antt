-- ===== src/Registry.antt =====
-- libs/modkit/src/registry.rs: the order in which modules start. A graph is the code's adjacency list
-- by index; the queue, the degrees and the order are its vectors. `none` is a panic (an index out of
-- range, a degree below 0) or the end of the fuel.
pub mod Degrees
pub mod Kahn
pub mod Start
pub mod Order
pub mod Graph
pub mod Edges
pub mod Links
pub mod Names
mod Tests
use hyperspot.Common.{
  ℕ, zero, suc, ◌+◌, Bool, true, false, Option, none, some, List, [], ◌∷◌, ◌++◌, length, get_elem?,
  if◌then◌else◌, nat_beq,
}

abbrev pub and_then {ℓ ℓ'} : {A : Type ℓ} {B : Type ℓ'} → Option A → (A → Option B) → Option B
and_then none f = none
and_then (some a) f = f a

abbrev pub pushed : ℕ → ℕ × List ℕ → ℕ × List ℕ
pushed d (new, ds) = (new, d ∷ ds)

-- `indeg[w] -= 1`, with the new degree.
unfoldable pub decrement : List ℕ → ℕ → Option (ℕ × List ℕ)
decrement [] w = none
decrement (zero ∷ ds) zero = none
decrement (suc d ∷ ds) zero = some (d, d ∷ ds)
decrement (d ∷ ds) (suc w) = and_then (decrement ds w) (λ r. some (pushed d r))

-- `indeg[target] += 1`.
unfoldable pub increment : List ℕ → ℕ → Option (List ℕ)
increment [] w = none
increment (d ∷ ds) zero = some ((d + 1) ∷ ds)
increment (d ∷ ds) (suc w) = and_then (increment ds w) (λ r. some (d ∷ r))

unfoldable pub increments : List ℕ → List ℕ → Option (List ℕ)
increments [] indeg = some indeg
increments (w ∷ ws) indeg = and_then (increment indeg w) (increments ws)

unfoldable pub degrees : List (List ℕ) → List ℕ → Option (List ℕ)
degrees [] indeg = some indeg
degrees (ws ∷ adj) indeg = and_then (increments ws indeg) (degrees adj)

unfoldable pub zeros : List (List ℕ) → List ℕ
zeros [] = []
zeros (ws ∷ adj) = 0 ∷ zeros adj

-- The indices, from `i` on, whose degree is 0.
unfoldable pub sources : ℕ → List ℕ → List ℕ
sources i [] = []
sources i (d ∷ ds) = let rest = sources (i + 1) ds in if nat_beq d 0 then i ∷ rest else rest

-- The loop over the targets of the node that was taken off the queue.
unfoldable pub relax : List ℕ → List ℕ → List ℕ → Option (List ℕ × List ℕ)
relax [] indeg q = some (indeg, q)
relax (w ∷ ws) indeg q =
    and_then (decrement indeg w)
      (λ (d, indeg'). relax ws indeg' (if nat_beq d 0 then q ++ w ∷ [] else q))

-- The nodes in the order in which they are taken off the queue.
unfoldable pub kahn : ℕ → List (List ℕ) → List ℕ → List ℕ → Option (List ℕ)
kahn zero adj indeg q = none
kahn (suc fuel) adj indeg [] = some []
kahn (suc fuel) adj indeg (u ∷ q) = and_then (get_elem? adj u) (λ ws.
    and_then (relax ws indeg q)
      (λ (indeg', q'). and_then (kahn fuel adj indeg' q') (λ order. some (u ∷ order))))

-- Step 4 of `build_topo_sorted`.
unfoldable pub topo_sort : ℕ → List (List ℕ) → Option (List ℕ)
topo_sort fuel adj =
    and_then (degrees adj (zeros adj)) (λ indeg. kahn fuel adj indeg (sources 0 indeg))
