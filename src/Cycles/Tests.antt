-- ===== src/Cycles/Tests.antt =====
-- Three modules, of which the second and the third depend on each other.
use hyperspot.Common.{
  ℕ, zero, suc, ◌<◌, ◌≡◌, refl, sym, subst, inl, inr, Option, none, some, List, [], ◌∷◌, In, arith,
  Str,
}
use hyperspot.Registry.Kahn.{some-inj}
use hyperspot.Registry.Edges.{Targets}
use hyperspot.Cycles.{
  all_white, set_color, path_from, names_at, pop, visit, dfs, search_roots, detect_cycle_with_path,
}
use hyperspot.Cycles.Acyclic.{Verdict, detect_cycle_with_path-Verdict}

abbrev names : List Str
names = (97 ∷ []) ∷ (98 ∷ []) ∷ (99 ∷ []) ∷ []

abbrev cyclic : List (List ℕ)
cyclic = (1 ∷ []) ∷ (2 ∷ []) ∷ (1 ∷ []) ∷ []

cycle_found :
    detect_cycle_with_path 3 names cyclic ≡ some (some ((98 ∷ []) ∷ (99 ∷ []) ∷ (98 ∷ []) ∷ []))
unfolding detect_cycle_with_path search_roots dfs visit set_color path_from names_at pop all_white
cycle_found = refl

no_cycle : detect_cycle_with_path 3 names ((1 ∷ 2 ∷ []) ∷ (2 ∷ []) ∷ [] ∷ []) ≡ some none
unfolding detect_cycle_with_path search_roots dfs visit set_color path_from names_at pop all_white
no_cycle = refl

to_one : (t w : ℕ) → t < 3 → In w (t ∷ []) → w < 3
to_one t w lt (inl e) = omega (arith, e, lt)
to_one t w lt (inr absent) = absurd absent

targets : Targets cyclic
targets zero w (ws, e, i) = to_one 1 w (omega arith) (subst (In w) (sym (some-inj e)) i)
targets (suc zero) w (ws, e, i) = to_one 2 w (omega arith) (subst (In w) (sym (some-inj e)) i)
targets (suc (suc zero)) w (ws, e, i) = to_one 1 w (omega arith) (subst (In w) (sym (some-inj e)) i)
targets (suc (suc (suc k))) w (ws, e, i) = cc

detect_cycle_with_path-Verdict_example :
    (r : Option (List Str)) × (detect_cycle_with_path 3 names cyclic ≡ some r)
    × Verdict names cyclic r
detect_cycle_with_path-Verdict_example =
    detect_cycle_with_path-Verdict names cyclic refl targets 3 (omega arith)
