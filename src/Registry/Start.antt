-- ===== src/Registry/Start.antt =====
-- The degrees and the queue that the loop starts from.
use hyperspot.Common.{
  ℕ, zero, suc, ◌+◌, ◌<◌, ◌≡◌, refl, ap, sym, subst, ◌∙◌, ◌⊎◌, inl, inr, Bool, true, false, some,
  List, [], ◌∷◌, length, get_elem?, In, In-get_elem?, nat_beq, nat_beq_iff, if◌then◌else◌, arith,
  Bool-cases,
}
use hyperspot.Registry.{increment, increments, degrees, zeros, sources}
use hyperspot.Registry.Degrees.{count, left}
use hyperspot.Registry.Kahn.{Bounded, Inv, Unique, due, and_then-some, some-inj}

pub get_elem?-lt :
    {A : Type 0} (xs : List A) (i : ℕ) (a : A) → get_elem? xs i ≡ some a → i < length xs
get_elem?-lt [] i a h = cc
get_elem?-lt (x ∷ xs) zero a h = omega arith
get_elem?-lt (x ∷ xs) (suc i) a h = omega (arith, get_elem?-lt xs i a h)

-- Every degree of `ds` has grown by what `c` counts for its index.
record Grown (c : ℕ → ℕ) (ds ds' : List ℕ) : Type 0 where
  size : length ds' ≡ length ds
  entry : (x d : ℕ) → get_elem? ds x ≡ some d → get_elem? ds' x ≡ some (c x + d)

abbrev one_at : ℕ → ℕ → ℕ
one_at w x = if nat_beq w x then 1 else 0

Grown-cons :
    (w e : ℕ) (ds ds' : List ℕ)
    → Grown (one_at w) ds ds'
    → Grown (one_at (suc w)) (e ∷ ds) (e ∷ ds')
Grown-cons w e ds ds' g = record { size = ap suc g.size; entry = λ x d h. at x d h }
  where
    at :
        (x d : ℕ)
        → get_elem? (e ∷ ds) x ≡ some d
        → get_elem? (e ∷ ds') x ≡ some (one_at (suc w) x + d)
    at zero d h = h ∙ ap some (ground arith)
    at (suc x) d h = g.entry x d h ∙ ap (λ n. some (n + d)) (ground arith)

Grown-head : (e : ℕ) (ds : List ℕ) → Grown (one_at 0) (e ∷ ds) ((e + 1) ∷ ds)
Grown-head e ds = record { size = refl; entry = λ x d h. at x d h }
  where
    at :
        (x d : ℕ)
        → get_elem? (e ∷ ds) x ≡ some d
        → get_elem? ((e + 1) ∷ ds) x ≡ some (one_at 0 x + d)
    at zero d h = ap some (omega (arith, some-inj h))
    at (suc x) d h = h ∙ ap some (ground arith)

increment-Grown :
    (ds : List ℕ) (w : ℕ)
    → w < length ds
    → (ds' : List ℕ) × (increment ds w ≡ some ds') × Grown (one_at w) ds ds'
unfolding increment
increment-Grown [] w lt = absurd (omega (arith, lt))
increment-Grown (e ∷ ds) zero lt = ((e + 1) ∷ ds, refl, Grown-head e ds)
increment-Grown (e ∷ ds) (suc w) lt =
    let (ds', done, g) = increment-Grown ds w (omega (arith, lt)) in
    (e ∷ ds', and_then-some (increment ds w) _ done, Grown-cons w e ds ds' g)

increments-Grown :
    (ws ds : List ℕ)
    → ((w : ℕ) → In w ws → w < length ds)
    → (ds' : List ℕ) × (increments ws ds ≡ some ds') × Grown (λ x. count x ws) ds ds'
unfolding increments
increments-Grown [] ds bound =
    (ds, refl, record { size = refl; entry = λ x d h. h ∙ ap some (omega arith) })
increments-Grown (w ∷ ws) ds bound =
    let (ds', one, g) = increment-Grown ds w (bound w (inl refl)) in
    let (ds'', rest, g') =
      increments-Grown ws ds' (λ v i. subst (λ n. v < n) (sym g.size) (bound v (inr i))) in
    (
      ds'',
      and_then-some (increment ds w) (increments ws) one ∙ rest,
      record {
        size = g'.size ∙ g.size;
        entry = λ x d h. g'.entry x (one_at w x + d) (g.entry x d h) ∙ ap some (omega arith);
      },
    )

degrees-Grown :
    (adj : List (List ℕ)) (i : ℕ) (ds : List ℕ)
    → ((ws : List ℕ) → In ws adj → (w : ℕ) → In w ws → w < length ds)
    → (ds' : List ℕ) × (degrees adj ds ≡ some ds') × Grown (λ x. left (count x) [] i adj) ds ds'
unfolding degrees
degrees-Grown [] i ds bound =
    (ds, refl, record { size = refl; entry = λ x d h. h ∙ ap some (omega arith) })
degrees-Grown (ws ∷ adj) i ds bound =
    let (ds', one, g) = increments-Grown ws ds (bound ws (inl refl)) in
    let (ds'', rest, g') =
      degrees-Grown adj (i + 1) ds'
        (λ vs l v j. subst (λ n. v < n) (sym g.size) (bound vs (inr l) v j)) in
    (
      ds'',
      and_then-some (increments ws ds) (degrees adj) one ∙ rest,
      record {
        size = g'.size ∙ g.size;
        entry = λ x d h. g'.entry x (count x ws + d) (g.entry x d h) ∙ ap some (omega arith);
      },
    )

length-zeros : (adj : List (List ℕ)) → length (zeros adj) ≡ length adj
unfolding zeros
length-zeros [] = refl
length-zeros (ws ∷ adj) = ap suc (length-zeros adj)

get_elem?-zeros : (adj : List (List ℕ)) (x : ℕ) → x < length adj → get_elem? (zeros adj) x ≡ some 0
unfolding zeros
get_elem?-zeros [] x lt = absurd (omega (arith, lt))
get_elem?-zeros (ws ∷ adj) zero lt = refl
get_elem?-zeros (ws ∷ adj) (suc x) lt = get_elem?-zeros adj x (omega (arith, lt))

In-optional :
    (b : Bool) (y x : ℕ) (xs : List ℕ)
    → In x (if b then y ∷ xs else xs)
    → ((b ≡ true) × (y ≡ x)) ⊎ In x xs
In-optional true y x xs (inl e) = inl (refl, e)
In-optional true y x xs (inr i) = inr i
In-optional false y x xs i = inr i

keeps_optional : (b : Bool) (y x : ℕ) (xs : List ℕ) → In x xs → In x (if b then y ∷ xs else xs)
keeps_optional true y x xs i = inr i
keeps_optional false y x xs i = i

In-sources : (i : ℕ) (ds : List ℕ) (k : ℕ) → get_elem? ds k ≡ some 0 → In (i + k) (sources i ds)
unfolding sources
In-sources i [] k h = cc
In-sources i (d ∷ ds) zero h =
    let zero_degree : d ≡ 0 = some-inj h in rw ((nat_beq_iff d 0).1 zero_degree) (inl (omega arith))
In-sources i (d ∷ ds) (suc k) h =
    keeps_optional (nat_beq d 0) i (i + suc k) (sources (i + 1) ds)
      (subst (λ n. In n (sources (i + 1) ds)) (omega arith) (In-sources (i + 1) ds k h))

sources-In :
    (i : ℕ) (ds : List ℕ) (x : ℕ)
    → In x (sources i ds)
    → (k : ℕ) × (x ≡ i + k) × (get_elem? ds k ≡ some 0)
unfolding sources
sources-In i [] x h = absurd h
sources-In i (d ∷ ds) x h = elim (In-optional (nat_beq d 0) i x (sources (i + 1) ds) h) [
  | inl (b, e) ↦ (0, omega (arith, e), ap some ((nat_beq_iff d 0).0 b))
  | inr later ↦ let (k, at, z) = sources-In (i + 1) ds x later in (suc k, omega (arith, at), z)
]

sources-Unique : (i : ℕ) (ds : List ℕ) → Unique (sources i ds)
unfolding sources
sources-Unique i [] = tt
sources-Unique i (d ∷ ds) =
    let later : ¬ In i (sources (i + 1) ds) =
      λ j. let (k, at, z) = sources-In (i + 1) ds i j in absurd (omega (arith, at)) in
    elim (Bool-cases (nat_beq d 0)) [
      | inl e ↦ rw e (later, sources-Unique (i + 1) ds)
      | inr e ↦ rw e (sources-Unique (i + 1) ds)
    ]

-- The loop's invariant holds at its start, where every target is a node.
pub degrees-Inv :
    (adj : List (List ℕ))
    → Bounded adj
    → (indeg : List ℕ) × (degrees adj (zeros adj) ≡ some indeg)
      × Inv adj [] (sources 0 indeg) indeg []
degrees-Inv adj targets =
    let (indeg, counted, g) = degrees-Grown adj 0 (zeros adj) (λ ws l w i.
      let (k, lt, there) = In-get_elem? ws adj l in
      subst (λ n. w < n) (sym (length-zeros adj)) (targets k ws there w i)) in
    let degree : (x : ℕ) → x < length adj → get_elem? indeg x ≡ some (due adj [] [] x) =
      λ x lt. g.entry x 0 (get_elem?-zeros adj x lt) in
    (
      indeg,
      counted,
      record {
        degree = degree;
        queued = λ x i.
            let (k, at, z) = sources-In 0 indeg x i in
            let here : get_elem? indeg x ≡ some 0 =
              subst (λ n. get_elem? indeg n ≡ some 0) (omega (arith, at)) z in
            let lt : x < length adj =
              omega (arith, get_elem?-lt indeg x 0 here, g.size, length-zeros adj) in
            (lt, refl, some-inj (sym (degree x lt) ∙ here));
        taken = λ x t. cc;
        unique = sources-Unique 0 indeg;
        ripe = λ x lt z. inr (
            subst (λ n. In n (sources 0 indeg)) (omega arith)
              (In-sources 0 indeg x (degree x lt ∙ ap some z)));
      },
    )
