-- ===== src/Assembly/Order.antt =====
-- The order of the indices, read as an order of the modules' names.
use hyperspot.Common.{
  ℕ, zero, suc, ◌≤◌, ◌<◌, ◌≡◌, refl, sym, ap, ◌≢◌, subst, ◌∙◌, inl, inr, Bool, true, false, none,
  some, List, [], ◌∷◌, ◌++◌, length, get_elem?, In, All-In, arith, Str, text_key, nat_key, contains,
  nat_beq, nat_beq_iff, ◌==◌, map, Bool-cases,
}
use hyperspot.Common.Map
use hyperspot.Common.Map.{UniqueKeys}
use hyperspot.Registry.{kahn, topo_sort, relax, degrees, zeros, sources}
use hyperspot.Registry.Kahn.{IsTopological, some-inj, and_then-some}
use hyperspot.Registry.Start.{get_elem?-lt}
use hyperspot.Registry.Degrees.{count}
use hyperspot.Registry.Edges.{Edge, HasEdge}
use hyperspot.Registry.Links.{Linked}
use hyperspot.Registry.Names.{IsTopological-before}
use hyperspot.Cycles.{names_at}
use hyperspot.Cycles.Colors.{and_then-inv}
use hyperspot.Assembly.Graph.{IsGraph, DependsOn}

pub names_at-cons :
    (names : List Str) (i : ℕ) (is : List ℕ) (ns : List Str)
    → names_at names (i ∷ is) ≡ some ns
    → (n : Str) × (ms : List Str) × (get_elem? names i ≡ some n)
      × (names_at names is ≡ some ms)
      × (n ∷ ms ≡ ns)
unfolding names_at
names_at-cons names i is ns h =
    let (n, here, rest) = and_then-inv (get_elem? names i) _ h in
    let (ms, later, whole) = and_then-inv (names_at names is) _ rest in
    (n, ms, here, later, some-inj whole)

pub names_at-In :
    (names : List Str) (is : List ℕ) (ns : List Str) (i : ℕ)
    → names_at names is ≡ some ns
    → In i is
    → (n : Str) × (get_elem? names i ≡ some n) × In n ns
names_at-In names [] ns i h k = absurd k
names_at-In names (j ∷ is) ns i h (inl e) =
    let (n, ms, here, later, whole) = names_at-cons names j is ns h in
    (n, subst (λ x. get_elem? names x ≡ some n) e here, subst (In n) whole (inl refl))
names_at-In names (j ∷ is) ns i h (inr k) =
    let (n, ms, here, later, whole) = names_at-cons names j is ns h in
    let (m, at, there) = names_at-In names is ms i later k in
    (m, at, subst (In m) whole (inr there))

-- A place in the list of names is a place in the list of indices.
pub names_at-split :
    (names : List Str) (is : List ℕ) (ns pre post : List Str) (n : Str)
    → names_at names is ≡ some ns
    → ns ≡ pre ++ n ∷ post
    → (before after : List ℕ) × (x : ℕ) × (is ≡ before ++ x ∷ after)
      × (names_at names before ≡ some pre)
      × (get_elem? names x ≡ some n)
unfolding names_at
names_at-split names [] ns [] post n h split = cc
names_at-split names [] ns (p ∷ pre) post n h split = cc
names_at-split names (i ∷ is) ns [] post n h split =
    let (m, ms, here, later, whole) = names_at-cons names i is ns h in
    let same : m ≡ n = cc in ([], is, i, refl, refl, here ∙ ap some same)
names_at-split names (i ∷ is) ns (p ∷ pre) post n h split =
    let (m, ms, here, later, whole) = names_at-cons names i is ns h in
    let same : m ≡ p = cc in
    let rest : ms ≡ pre ++ n ∷ post = cc in
    let (before, after, x, e, named, at) = names_at-split names is ms pre post n later rest in
    (
      i ∷ before,
      after,
      x,
      ap (λ l. i ∷ l) e,
      and_then-some _ _ here ∙ and_then-some _ _ named ∙ ap (λ q. some (q ∷ pre)) same,
      at,
    )

-- A node comes once.
IsTopological-fresh :
    (adj : List (List ℕ)) (done order pre post : List ℕ) (x : ℕ)
    → IsTopological adj done order
    → order ≡ pre ++ x ∷ post
    → (contains x done ≡ false) × ¬ In x pre
IsTopological-fresh adj done [] [] post x h e = cc
IsTopological-fresh adj done [] (p ∷ pre) post x h e = cc
IsTopological-fresh adj done (y ∷ ys) [] post x h e =
    let same : y ≡ x = cc in (subst (λ n. contains n done ≡ false) same h.1, λ absent. absent)
IsTopological-fresh adj done (y ∷ ys) (p ∷ pre) post x h e =
    let same : y ≡ p = cc in
    let rest : ys ≡ pre ++ x ∷ post = cc in
    let (fresh, absent) = IsTopological-fresh adj (y ∷ done) ys pre post x h.2 rest in
    elim (Bool-cases (nat_beq y x)) [
      | inl t ↦ let no : Bool.true ≡ Bool.false = rw t at fresh in cc
      | inr t ↦ (
        rw t at fresh,
        elim [
          | inl q ↦ let eq : nat_beq y x ≡ true = (nat_beq_iff y x).1 (same ∙ q) in cc
          | inr j ↦ absent j
        ],
      )
    ]

kahn_bounds :
    (fuel : ℕ) (adj : List (List ℕ)) (indeg q order : List ℕ) (x : ℕ)
    → kahn fuel adj indeg q ≡ some order
    → In x order
    → x < length adj
unfolding kahn
kahn_bounds zero adj indeg q order x h i = cc
kahn_bounds (suc fuel) adj indeg [] order x h i = absurd (subst (In x) (sym (some-inj h)) i)
kahn_bounds (suc fuel) adj indeg (u ∷ q) order x h i =
    let (ws, at, h1) = and_then-inv (get_elem? adj u) _ h in
    let (r, e, h2) = and_then-inv (relax ws indeg q) _ h1 in
    let (rest, e', whole) = and_then-inv (kahn fuel adj r.0 r.1) _ h2 in
    elim (subst (In x) (sym (some-inj whole)) i) [
      | inl same ↦ omega (arith, same, get_elem?-lt adj u ws at)
      | inr j ↦ kahn_bounds fuel adj r.0 r.1 rest x e' j
    ]

pub topo_sort_bounds :
    (fuel : ℕ) (adj : List (List ℕ)) (order : List ℕ) (x : ℕ)
    → topo_sort fuel adj ≡ some order
    → In x order
    → x < length adj
unfolding topo_sort
topo_sort_bounds fuel adj order x h i =
    let (indeg, e, h1) = and_then-inv (degrees adj (zeros adj)) _ h in
    kahn_bounds fuel adj indeg (sources 0 indeg) order x h1 i

pub In_of_count : (x : ℕ) (ws : List ℕ) → 1 ≤ count x ws → In x ws
In_of_count x [] h = absurd (omega (arith, h))
In_of_count x (w ∷ ws) h = elim (Bool-cases (nat_beq w x)) [
  | inl t ↦ inl ((nat_beq_iff w x).0 t)
  | inr t ↦ let h' = rw t at h in inr (In_of_count x ws (omega (arith, h')))
]

-- The keys of a map stand at one index each.
key_lookup :
    {V : Type 0} (m : List (Str × V)) (i : ℕ) (n : Str)
    → get_elem? (map (λ p. p.0) m) i ≡ some n
    → (v : V) × (Map.lookup n m ≡ some v)
unfolding Map.lookup
key_lookup [] i n e = cc
key_lookup ((k, w) ∷ m) zero n e =
    let same : k ≡ n = some-inj e in (w, rw ((text_key.agrees_iff k n).1 same) refl)
key_lookup ((k, w) ∷ m) (suc i) n e = elim (Bool-cases (k == n)) [
  | inl t ↦ (w, rw t refl)
  | inr t ↦ let (v, at) = key_lookup m i n e in (v, rw t at)
]

key_absent :
    {V : Type 0} (k : Str) (m : List (Str × V)) (i : ℕ) (n : Str)
    → Map.lookup k m ≡ none
    → k ≡ n
    → get_elem? (map (λ p. p.0) m) i ≢ some n
key_absent k m i n gone same at =
    let (v, there) = key_lookup m i n at in
    let no = subst (λ c. Map.lookup c m ≡ none) same gone in cc

pub key_index :
    {V : Type 0} (m : List (Str × V)) (i j : ℕ) (n : Str)
    → UniqueKeys m
    → get_elem? (map (λ p. p.0) m) i ≡ some n
    → get_elem? (map (λ p. p.0) m) j ≡ some n
    → i ≡ j
key_index [] i j n u e f = cc
key_index ((k, w) ∷ m) zero zero n u e f = refl
key_index ((k, w) ∷ m) zero (suc j) n u e f = absurd (key_absent k m j n u.0 (some-inj e) f)
key_index ((k, w) ∷ m) (suc i) zero n u e f = absurd (key_absent k m i n u.0 (some-inj f) e)
key_index ((k, w) ∷ m) (suc i) (suc j) n u e f = ap suc (key_index m i j n u.1 e f)

-- Each module comes once, and after all modules that it depends on.
abbrev pub IsStartOrder : List (Str × List Str) → List Str → Type 0
IsStartOrder deps ns =
    (pre post : List Str) (n : Str)
    → ns ≡ pre ++ n ∷ post
    → (¬ In n pre) × ((d : Str) → DependsOn deps n d → In d pre)

pub names_at_back :
    (names : List Str) (is : List ℕ) (ns : List Str) (n : Str)
    → names_at names is ≡ some ns
    → In n ns
    → (i : ℕ) × In i is × (get_elem? names i ≡ some n)
unfolding names_at
names_at_back names [] ns n h k = absurd (subst (In n) (sym (some-inj h)) k)
names_at_back names (j ∷ is) ns n h k =
    let (m, ms, here, later, whole) = names_at-cons names j is ns h in
    elim (subst (In n) (sym whole) k) [
      | inl e ↦ (j, inl refl, here ∙ ap some e)
      | inr l ↦ let (i, there, at) = names_at_back names is ms n later l in (i, inr there, at)
    ]

module _ {V : Type 0} (core : List (Str × V)) (deps : List (Str × List Str)) (names : List Str)
    (adj : List (List ℕ)) (idx : List (Str × ℕ)) where
  deps_first :
      UniqueKeys core
      → names ≡ map (λ p. p.0) core
      → IsGraph deps names adj idx
      → (order before after : List ℕ) (x : ℕ) (pre : List Str) (n d : Str)
      → IsTopological adj [] order
      → order ≡ before ++ x ∷ after
      → names_at names before ≡ some pre
      → get_elem? names x ≡ some n
      → DependsOn deps n d
      → In d pre
  deps_first unique same g order before after x pre n d top e named at (ds, i, j) =
      let (u, q, edges) = All-In (Linked idx adj) deps g.linked i in
      let keys =
        subst (λ ns. (get_elem? ns u ≡ some n) × (get_elem? ns x ≡ some n)) same
          (g.index n u q, at) in
      let here : u ≡ x = key_index core u x n unique keys.0 keys.1 in
      let (v, q', edge) = All-In (HasEdge idx u adj) ds edges j in
      let placed =
        IsTopological-before adj [] order before after v x top e (subst (Edge adj v) here edge) in
      elim placed [
        | inl none_done ↦ cc
        | inr k ↦
            let (m, at', there) = names_at-In names before pre v named k in
            let d_is : m ≡ d = some-inj (sym at' ∙ g.index d v q') in
            subst (λ c. In c pre) d_is there
      ]

  pub names-IsStartOrder :
      UniqueKeys core
      → names ≡ map (λ p. p.0) core
      → IsGraph deps names adj idx
      → (order : List ℕ) (ns : List Str) → IsTopological adj [] order
      → names_at names order ≡ some ns
      → IsStartOrder deps ns
  names-IsStartOrder unique same g order ns top named pre post n split =
      let (before, after, x, e, named', at) =
        names_at-split names order ns pre post n named split in
      (
        λ k.
            let (i, there, at') = names_at_back names before pre n named' k in
            let keys =
              subst (λ ms. (get_elem? ms i ≡ some n) × (get_elem? ms x ≡ some n)) same (at', at) in
            let again : i ≡ x = key_index core i x n unique keys.0 keys.1 in
            (IsTopological-fresh adj [] order before after x top e).1
              (subst (λ y. In y before) again there),
        λ d dep. deps_first unique same g order before after x pre n d top e named' at dep,
      )
