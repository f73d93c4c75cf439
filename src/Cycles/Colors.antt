-- ===== src/Cycles/Colors.antt =====
-- Vectors of colours, the number of white nodes left, and the path.
use hyperspot.Common.{
  ℕ, zero, suc, ◌+◌, ◌≤◌, ◌<◌, ◌≡◌, refl, sym, ap, ◌∙◌, ◌⊎◌, inl, inr, Option, none, some, List, [],
  ◌∷◌, ◌++◌, length, get_elem?, get_elem?_total, In, Bool, nat_beq, nat_beq_iff, Bool-cases, arith,
  Str,
}
use hyperspot.Registry.{and_then}
use hyperspot.Registry.Kahn.{and_then-some, some-inj}
use hyperspot.Cycles.{Color, white, gray, black, set_color, all_white, path_from, pop, names_at}

abbrev pub weight : Color → ℕ
weight white = 1
weight gray = 0
weight black = 0

-- The number of white nodes.
abbrev pub whites : List Color → ℕ
whites [] = 0
whites (c ∷ cs) = weight c + whites cs

-- The vector `cs'` is `cs` with the colour `c` at `i`.
pub record Recolored (cs : List Color) (i : ℕ) (c : Color) (cs' : List Color) : Type 0 where
  pub size : length cs' ≡ length cs
  pub here : get_elem? cs' i ≡ some c
  pub elsewhere : (j : ℕ) → (i ≡ j) ⊎ (get_elem? cs' j ≡ get_elem? cs j)
  pub fewer : (b : Color) → get_elem? cs i ≡ some b → whites cs' + weight b ≡ whites cs + weight c

Recolored-head : (b c : Color) (cs : List Color) → Recolored (b ∷ cs) 0 c (c ∷ cs)
Recolored-head b c cs = record { size = refl; here = refl; elsewhere = away; fewer = count }
  where
    away : (j : ℕ) → (0 ≡ j) ⊎ (get_elem? (c ∷ cs) j ≡ get_elem? (b ∷ cs) j)
    away zero = inl refl
    away (suc j) = inr refl

    count :
        (a : Color)
        → get_elem? (b ∷ cs) 0 ≡ some a
        → whites (c ∷ cs) + weight a ≡ whites (b ∷ cs) + weight c
    count a e = rw⁻¹ (some-inj e) (omega arith)

Recolored-cons :
    (b c : Color) (cs cs' : List Color) (i : ℕ)
    → Recolored cs i c cs'
    → Recolored (b ∷ cs) (suc i) c (b ∷ cs')
Recolored-cons b c cs cs' i r = record {
  size = omega (arith, r.size);
  here = r.here;
  elsewhere = away;
  fewer = λ a e. omega (arith, r.fewer a e);
}
  where
    away : (j : ℕ) → (suc i ≡ j) ⊎ (get_elem? (b ∷ cs') j ≡ get_elem? (b ∷ cs) j)
    away zero = inr refl
    away (suc j) = elim (r.elsewhere j) [ inl e ↦ inl (ap suc e) | inr e ↦ inr e ]

pub set_color-Recolored :
    (cs : List Color) (i : ℕ) (c : Color)
    → i < length cs
    → (cs' : List Color) × (set_color cs i c ≡ some cs') × Recolored cs i c cs'
unfolding set_color
set_color-Recolored [] i c lt = absurd (omega (arith, lt))
set_color-Recolored (b ∷ cs) zero c lt = (c ∷ cs, refl, Recolored-head b c cs)
set_color-Recolored (b ∷ cs) (suc i) c lt =
    let (cs', e, r) = set_color-Recolored cs i c (omega (arith, lt)) in
    (b ∷ cs', and_then-some _ _ e, Recolored-cons b c cs cs' i r)

pub get_elem?-all_white :
    (names : List Str) (i : ℕ) (c : Color) → get_elem? (all_white names) i ≡ some c → c ≡ white
unfolding all_white
get_elem?-all_white [] i c e = cc
get_elem?-all_white (n ∷ names) zero c e = sym (some-inj e)
get_elem?-all_white (n ∷ names) (suc i) c e = get_elem?-all_white names i c e

pub all_white_size :
    (names : List Str)
    → (length (all_white names) ≡ length names) × (whites (all_white names) ≡ length names)
unfolding all_white
all_white_size [] = (refl, refl)
all_white_size (n ∷ names) = let h = all_white_size names in omega (arith, h.0, h.1)

pub pop-append : (path : List ℕ) (n : ℕ) → pop (path ++ n ∷ []) ≡ path
unfolding pop
pop-append [] n = refl
pop-append (x ∷ []) n = refl
pop-append (x ∷ y ∷ path) n = ap (λ p. x ∷ p) (pop-append (y ∷ path) n)

-- The part of the path from a node of it on is the end of the path and starts with the node.
pub path_from-In :
    (target : ℕ) (path : List ℕ)
    → In target path
    → (before rest : List ℕ) × (path_from target path ≡ some (target ∷ rest))
      × (path ≡ before ++ target ∷ rest)
unfolding path_from
path_from-In target [] i = absurd i
path_from-In target (n ∷ path) i = elim (Bool-cases (nat_beq n target)) [
  | inl t ↦
      let same : n ≡ target = (nat_beq_iff n target).0 t in
      ([], path, rw (t, same) refl, rw same refl)
  | inr t ↦ elim i [
    | inl e ↦ let eq : nat_beq n target ≡ Bool.true = (nat_beq_iff n target).1 e in cc
    | inr j ↦
        let (before, rest, e, split) = path_from-In target path j in
        (n ∷ before, rest, rw t e, ap (λ p. n ∷ p) split)
  ]
]

pub and_then-inv :
    {A B : Type 0} (o : Option A) (f : A → Option B) {b : B}
    → and_then o f ≡ some b
    → (a : A) × (o ≡ some a) × (f a ≡ some b)
and_then-inv none f h = cc
and_then-inv (some a) f h = (a, refl, h)

pub whites_pos : (cs : List Color) (i : ℕ) → get_elem? cs i ≡ some white → 1 ≤ whites cs
whites_pos [] i e = cc
whites_pos (c ∷ cs) zero e = rw (some-inj e) (omega arith)
whites_pos (c ∷ cs) (suc i) e = omega (arith, whites_pos cs i e)

-- Indices below the number of names have names.
pub names_at_total :
    (names : List Str) (is : List ℕ)
    → ((i : ℕ) → In i is → i < length names)
    → (ns : List Str) × (names_at names is ≡ some ns)
unfolding names_at
names_at_total names [] h = ([], refl)
names_at_total names (i ∷ is) h =
    let (n, e) = get_elem?_total names i (h i (inl refl)) in
    let (ns, es) = names_at_total names is (λ j k. h j (inr k)) in
    (n ∷ ns, and_then-some _ _ e ∙ and_then-some _ _ es)

pub names_at-append :
    (names : List Str) (is : List ℕ) (i : ℕ) (ns : List Str) (n : Str)
    → names_at names is ≡ some ns
    → get_elem? names i ≡ some n
    → names_at names (is ++ i ∷ []) ≡ some (ns ++ n ∷ [])
unfolding names_at
names_at-append names [] i ns n e at =
    let none_yet : [] ≡ ns = some-inj e in rw⁻¹ none_yet (and_then-some _ _ at)
names_at-append names (j ∷ is) i ns n e at =
    let (m, here, rest) = and_then-inv (get_elem? names j) _ e in
    let (ms, later, whole) = and_then-inv (names_at names is) _ rest in
    let same : m ∷ ms ≡ ns = some-inj whole in
    and_then-some _ _ here
    ∙ and_then-some _ _ (names_at-append names is i ms n later at)
    ∙ ap (λ l. some (l ++ n ∷ [])) same
