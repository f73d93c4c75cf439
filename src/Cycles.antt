-- ===== src/Cycles.antt =====
-- Step 3 of build_topo_sorted in libs/modkit/src/registry.rs: detect_cycle_with_path, the depth-first
-- search with colours. `none` is a panic (an index out of range) or the end of the fuel, which
-- bounds the depth of the recursion.
pub mod Colors
pub mod Search
pub mod Descent
pub mod Heights
pub mod Acyclic
mod Tests
use hyperspot.Common.{
  ℕ, zero, suc, ◌+◌, Bool, true, false, Option, none, some, List, [], ◌∷◌, ◌++◌, get_elem?, Str,
  nat_beq, if◌then◌else◌,
}
use hyperspot.Registry.{and_then}

pub data Color : Type 0 where
  white gray black : Color

-- `colors[i] = c`.
unfoldable pub set_color : List Color → ℕ → Color → Option (List Color)
set_color [] i c = none
set_color (x ∷ xs) zero c = some (c ∷ xs)
set_color (x ∷ xs) (suc i) c = and_then (set_color xs i c) (λ ys. some (x ∷ ys))

-- `vec![Color::White; names.len()]`.
unfoldable pub all_white : List Str → List Color
all_white [] = []
all_white (n ∷ names) = white ∷ all_white names

-- `path[cycle_start..]`, from the first `target` on; `none` where `position` finds none.
unfoldable pub path_from : ℕ → List ℕ → Option (List ℕ)
path_from target [] = none
path_from target (n ∷ path) =
    let later = path_from target path in if nat_beq n target then some (n ∷ path) else later

-- `names[i]` for each of the indices.
unfoldable pub names_at : List Str → List ℕ → Option (List Str)
names_at names [] = some []
names_at names (i ∷ is) =
    and_then (get_elem? names i) (λ n. and_then (names_at names is) (λ ns. some (n ∷ ns)))

-- `path.pop()`.
unfoldable pub pop : List ℕ → List ℕ
pop [] = []
pop (n ∷ []) = []
pop (n ∷ m ∷ path) = n ∷ pop (m ∷ path)

-- A search has found a cycle, or goes on with the colours and the path.
pub data Step : Type 0 where
  found : List Str → Step
  going : List Color → List ℕ → Step

abbrev pub then_going : (List Color → List ℕ → Option Step) → Step → Option Step
then_going f (found cycle) = some (found cycle)
then_going f (going colors path) = f colors path

abbrev pub close_cycle : List Str → ℕ → List ℕ → Option Step
close_cycle names neighbor indices =
    and_then (names_at names indices)
      (λ cycle. and_then (get_elem? names neighbor) (λ n. some (found (cycle ++ n ∷ []))))

-- The loop over the neighbours, with `dfs` as the recursive call.
unfoldable pub visit :
    (ℕ → List Color → List ℕ → Option Step) → List Str → List ℕ → List Color → List ℕ → Option Step
visit dfs names [] colors path = some (going colors path)
visit dfs names (neighbor ∷ ws) colors path = and_then (get_elem? colors neighbor) (λ color.
    elim color [
      | gray ↦ elim (path_from neighbor path) [
        | some indices ↦ close_cycle names neighbor indices
        | none ↦ visit dfs names ws colors path
      ]
      | white ↦ and_then (dfs neighbor colors path) (then_going (visit dfs names ws))
      | black ↦ visit dfs names ws colors path
    ])

unfoldable pub dfs : ℕ → List Str → List (List ℕ) → ℕ → List Color → List ℕ → Option Step
dfs zero names adj node colors path = none
dfs (suc fuel) names adj node colors path = and_then (set_color colors node gray) (λ colors1.
    and_then (get_elem? adj node) (λ ws.
      and_then (visit (dfs fuel names adj) names ws colors1 (path ++ node ∷ [])) (
        then_going (λ colors2 path2.
          and_then (set_color colors2 node black) (λ colors3. some (going colors3 (pop path2)))))))

-- The loop over the roots `i` and on, one for each of the names left.
unfoldable pub search_roots :
    ℕ → List Str → List (List ℕ) → List Str → ℕ → List Color → List ℕ → Option Step
search_roots fuel names adj [] i colors path = some (going colors path)
search_roots fuel names adj (n ∷ left) i colors path = and_then (get_elem? colors i) (λ color.
    elim color [
      | white ↦
          and_then (dfs fuel names adj i colors path)
            (then_going (search_roots fuel names adj left (i + 1)))
      | gray ↦ search_roots fuel names adj left (i + 1) colors path
      | black ↦ search_roots fuel names adj left (i + 1) colors path
    ])

abbrev pub cycle_of : Step → Option (List Str)
cycle_of (found cycle) = some cycle
cycle_of (going colors path) = none

unfoldable pub detect_cycle_with_path : ℕ → List Str → List (List ℕ) → Option (Option (List Str))
detect_cycle_with_path fuel names adj =
    and_then (search_roots fuel names adj names 0 (all_white names) []) (λ r. some (cycle_of r))
