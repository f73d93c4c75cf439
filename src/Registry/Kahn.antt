-- ===== src/Registry/Kahn.antt =====
-- The loop of the topological sort: it ends, without a panic, with an order of the graph.
use hyperspot.Common.{
  ℕ, zero, suc, ◌+◌, ◌≤◌, ◌<◌, ◌≡◌, refl, ap, sym, subst, ◌∙◌, ◌⊎◌, inl, inr, Bool, true, false,
  Option, some, List, [], ◌∷◌, ◌++◌, length, get_elem?, get_elem?_total, In, In-append_split,
  In-append_left, In-append_right, contains, nat_key, nat_beq, nat_beq_iff, if◌then◌else◌, arith,
  Bool-cases,
}
use hyperspot.Registry.{and_then, decrement, relax, kahn}
use hyperspot.Registry.Degrees.{count, left, left-take, left-zero, left-pos, zero_or_pos}

pub some-inj : {A : Type 0} {a b : A} → some a ≡ some b → a ≡ b
some-inj h = cc

pub and_then-some :
    {A B : Type 0} (o : Option A) (f : A → Option B) {a : A} → o ≡ some a → and_then o f ≡ f a
and_then-some o f e = ap (λ p. and_then p f) e

-- A decremented vector, with the entry for `w` replaced by `d`.
abbrev Decremented : List ℕ → ℕ → ℕ → List ℕ → Type 0
Decremented ds w d ds' =
    (x : ℕ) → get_elem? ds' x ≡ (if nat_beq w x then some d else get_elem? ds x)

Decremented-cons :
    (e : ℕ) (ds ds' : List ℕ) (w d : ℕ)
    → Decremented ds w d ds'
    → Decremented (e ∷ ds) (suc w) d (e ∷ ds')
Decremented-cons e ds ds' w d look zero = ground arith
Decremented-cons e ds ds' w d look (suc x) = let there = look x in ground arith

Decremented-head : (d e : ℕ) (ds : List ℕ) → Decremented (e ∷ ds) 0 d (d ∷ ds)
Decremented-head d e ds zero = refl
Decremented-head d e ds (suc x) = ground arith

-- A degree that is not 0 goes down by one, and no other changes.
decrement_lem :
    (ds : List ℕ) (w d : ℕ)
    → get_elem? ds w ≡ some (suc d)
    → (ds' : List ℕ) × (decrement ds w ≡ some (d, ds')) × Decremented ds w d ds'
unfolding decrement
decrement_lem [] w d h = cc
decrement_lem (zero ∷ ds) zero d h =
    let no : ◌≡◌ {A = ℕ} 0 (suc d) = some-inj h in absurd (omega (arith, no))
decrement_lem (suc e ∷ ds) zero d h =
    let same : e ≡ d = omega (arith, some-inj h) in
    (d ∷ ds, ap (λ n. some (n, n ∷ ds)) same, Decremented-head d (suc e) ds)
decrement_lem (zero ∷ ds) (suc w) d h =
    let (ds', e, look) = decrement_lem ds w d h in
    (0 ∷ ds', and_then-some (decrement ds w) _ e, Decremented-cons 0 ds ds' w d look)
decrement_lem (suc n ∷ ds) (suc w) d h =
    let (ds', e, look) = decrement_lem ds w d h in
    (suc n ∷ ds', and_then-some (decrement ds w) _ e, Decremented-cons (suc n) ds ds' w d look)

-- What the degree of a node is, while the targets `ws` of the last node are still to be relaxed.
abbrev pub due : List (List ℕ) → List ℕ → List ℕ → ℕ → ℕ
due adj done ws x = left (count x) done 0 adj + count x ws

abbrev pub Unique : List ℕ → Type 0
Unique [] = Unit
Unique (x ∷ xs) = (¬ In x xs) × Unique xs

pub record Inv (adj : List (List ℕ)) (done q indeg ws : List ℕ) : Type 0 where
  pub degree : (x : ℕ) → x < length adj → get_elem? indeg x ≡ some (due adj done ws x)
  pub queued :
      (x : ℕ) → In x q → (x < length adj) × (contains x done ≡ false) × (due adj done ws x ≡ 0)
  pub taken : (x : ℕ) → contains x done ≡ true → due adj done ws x ≡ 0
  pub unique : Unique q
  pub ripe : (x : ℕ) → x < length adj → due adj done ws x ≡ 0 → (contains x done ≡ true) ⊎ In x q

-- Every target is a node.
abbrev pub Bounded : List (List ℕ) → Type 0
Bounded adj = (k : ℕ) (ws : List ℕ) → get_elem? adj k ≡ some ws → (w : ℕ) → In w ws → w < length adj

Unique-append : (xs : List ℕ) (y : ℕ) → Unique xs → ¬ In y xs → Unique (xs ++ y ∷ [])
Unique-append [] y u h = (λ i. i, tt)
Unique-append (x ∷ xs) y u h = (
  λ i. elim (In-append_split x xs (y ∷ []) i) [
    | inl l ↦ u.0 l
    | inr (inl e) ↦ h (inl (sym e))
    | inr (inr absent) ↦ absurd absent
  ],
  Unique-append xs y u.1 (λ i. h (inr i)),
)

module _ (adj : List (List ℕ)) (done ws : List ℕ) where
  due_self : (w : ℕ) → due adj done (w ∷ ws) w ≡ suc (due adj done ws w)
  due_self w = ground (arith, nat_beq_iff w w)

  due_other : (w x : ℕ) → nat_beq w x ≡ false → due adj done (w ∷ ws) x ≡ due adj done ws x
  due_other w x h = ground arith

  due_le : (w x : ℕ) → due adj done ws x ≤ due adj done (w ∷ ws) x
  due_le w x = ground arith

In-pushed :
    (b : Bool) (q : List ℕ) (w x : ℕ)
    → In x (if b then q ++ w ∷ [] else q)
    → In x q ⊎ ((b ≡ true) × (w ≡ x))
In-pushed false q w x i = inl i
In-pushed true q w x i = elim (In-append_split x q (w ∷ []) i) [
  | inl l ↦ inl l
  | inr (inl e) ↦ inr (refl, e)
  | inr (inr absent) ↦ absurd absent
]

keeps_pushed : (b : Bool) (q : List ℕ) (w x : ℕ) → In x q → In x (if b then q ++ w ∷ [] else q)
keeps_pushed false q w x i = i
keeps_pushed true q w x i = In-append_left x q (w ∷ []) i

-- One target.
relax-Inv_one :
    (adj : List (List ℕ)) (done q indeg ws indeg' : List ℕ) (w d : ℕ)
    → Inv adj done q indeg (w ∷ ws)
    → w < length adj
    → d ≡ due adj done ws w
    → Decremented indeg w d indeg'
    → Inv adj done (if nat_beq d 0 then q ++ w ∷ [] else q) indeg' ws
relax-Inv_one adj done q indeg ws indeg' w d inv bound is look =
    let not_taken : contains w done ≡ false = elim (Bool-cases (contains w done)) [
      | inl t ↦ absurd (omega (arith, inv.taken w t, due_self adj done ws w))
      | inr f ↦ f
    ] in
    let not_queued : ¬ In w q =
      λ i. absurd (omega (arith, (inv.queued w i).2, due_self adj done ws w)) in
    record {
      degree = λ x lt. elim (Bool-cases (nat_beq w x)) [
        | inl e ↦
            let here : get_elem? indeg' x ≡ some d = rw e at (look x) in
            here ∙ ap some (is ∙ ap (due adj done ws) ((nat_beq_iff w x).0 e))
        | inr e ↦
            let kept : get_elem? indeg' x ≡ get_elem? indeg x = rw e at (look x) in
            kept ∙ inv.degree x lt ∙ ap some (due_other adj done ws w x e)
      ];
      queued = λ x i. elim (In-pushed (nat_beq d 0) q w x i) [
        | inl old ↦
            let (lt, fresh, z) = inv.queued x old in
            (lt, fresh, omega (arith, z, due_le adj done ws w x))
        | inr (zero_degree, e) ↦
            subst (λ y. (y < length adj) × (contains y done ≡ false) × (due adj done ws y ≡ 0)) e
              (bound, not_taken, sym is ∙ (nat_beq_iff d 0).0 zero_degree)
      ];
      taken = λ x t. omega (arith, inv.taken x t, due_le adj done ws w x);
      unique = elim (Bool-cases (nat_beq d 0)) [
        | inl e ↦ rw e (Unique-append q w inv.unique not_queued)
        | inr e ↦ rw e inv.unique
      ];
      ripe = λ x lt z. elim (Bool-cases (nat_beq w x)) [
        | inl e ↦
            let same = (nat_beq_iff w x).0 e in
            let none_due : d ≡ 0 = is ∙ ap (due adj done ws) same ∙ z in
            inr (rw ((nat_beq_iff d 0).1 none_due) (In-append_right x q (w ∷ []) (inl same)))
        | inr e ↦ elim (inv.ripe x lt (due_other adj done ws w x e ∙ z)) [
          | inl t ↦ inl t
          | inr i ↦ inr (keeps_pushed (nat_beq d 0) q w x i)
        ]
      ];
    }

-- All the targets: no panic, and the invariant with nothing left to relax.
relax-Inv :
    (adj : List (List ℕ)) (done q indeg ws : List ℕ)
    → Inv adj done q indeg ws
    → ((w : ℕ) → In w ws → w < length adj)
    → (indeg' : List ℕ) × (q' : List ℕ) × (relax ws indeg q ≡ some (indeg', q'))
      × Inv adj done q' indeg' []
unfolding relax
relax-Inv adj done q indeg [] inv bound = (indeg, q, refl, inv)
relax-Inv adj done q indeg (w ∷ ws) inv bound =
    let d = due adj done ws w in
    let (indeg', here, look) =
      decrement_lem indeg w d
        (inv.degree w (bound w (inl refl)) ∙ ap some (due_self adj done ws w)) in
    let q' = if nat_beq d 0 then q ++ w ∷ [] else q in
    let (indeg'', q'', rest, inv'') =
      relax-Inv adj done q' indeg' ws
        (relax-Inv_one adj done q indeg ws indeg' w d inv (bound w (inl refl)) refl look)
        (λ v i. bound v (inr i)) in
    (indeg'', q'', and_then-some (decrement indeg w) _ here ∙ rest, inv'')

module _ (u x : ℕ) (done : List ℕ) where
  contains-uncons : contains x (u ∷ done) ≡ true → (u ≡ x) ⊎ (contains x done ≡ true)
  contains-uncons h = elim (Bool-cases (nat_beq u x)) [
    | inl e ↦ inl ((nat_beq_iff u x).0 e)
    | inr e ↦ inr (rw e at h)
  ]

  contains_head : u ≡ x → contains x (u ∷ done) ≡ true
  contains_head e = rw ((nat_beq_iff u x).1 e) refl

  contains_tail : contains x done ≡ true → contains x (u ∷ done) ≡ true
  contains_tail h = elim (Bool-cases (nat_beq u x)) [ inl e ↦ rw e refl | inr e ↦ rw e h ]

  contains_fresh : ¬ (u ≡ x) → contains x done ≡ false → contains x (u ∷ done) ≡ false
  contains_fresh ne h = elim (Bool-cases (nat_beq u x)) [
    | inl e ↦ absurd (ne ((nat_beq_iff u x).0 e))
    | inr e ↦ rw e h
  ]

  not_contained : contains x (u ∷ done) ≡ false → (¬ (u ≡ x)) × (contains x done ≡ false)
  not_contained h = elim (Bool-cases (nat_beq u x)) [
    | inl e ↦ let no : true ≡ false = rw e at h in cc
    | inr e ↦ (λ q. let no : true ≡ false = sym ((nat_beq_iff u x).1 q) ∙ e in cc, rw e at h)
  ]

-- Taking the head of the queue: its targets are to be relaxed.
take-Inv :
    (adj : List (List ℕ)) (done q indeg ws : List ℕ) (u : ℕ)
    → Inv adj done (u ∷ q) indeg []
    → get_elem? adj u ≡ some ws
    → Inv adj (u ∷ done) q indeg ws
take-Inv adj done q indeg ws u inv there =
    let (bound, fresh, none_due) = inv.queued u (inl refl) in
    let same : (x : ℕ) → due adj done [] x ≡ due adj (u ∷ done) ws x =
      λ x. omega (arith, left-take (count x) done 0 u u adj ws there (omega arith) fresh) in
    record {
      degree = λ x lt. inv.degree x lt ∙ ap some (same x);
      queued = λ x i.
          let (lt, f, z) = inv.queued x (inr i) in
          (
            lt,
            contains_fresh u x done (λ e. inv.unique.0 (subst (λ y. In y q) (sym e) i)) f,
            sym (same x) ∙ z,
          );
      taken = λ x t. elim (contains-uncons u x done t) [
        | inl e ↦ sym (same x) ∙ subst (λ y. due adj done [] y ≡ 0) e none_due
        | inr old ↦ sym (same x) ∙ inv.taken x old
      ];
      unique = inv.unique.1;
      ripe = λ x lt z. elim (inv.ripe x lt (same x ∙ z)) [
        | inl t ↦ inl (contains_tail u x done t)
        | inr (inl e) ↦ inl (contains_head u x done e)
        | inr (inr i) ↦ inr i
      ];
    }

-- Each node comes after all nodes with an edge to it, and comes once.
abbrev pub IsTopological : List (List ℕ) → List ℕ → List ℕ → Type 0
IsTopological adj done [] = Unit
IsTopological adj done (x ∷ xs) =
    ((v : ℕ) (ws : List ℕ) → get_elem? adj v ≡ some ws → 1 ≤ count x ws → contains v done ≡ true)
    × (contains x done ≡ false)
    × IsTopological adj (x ∷ done) xs

-- A node with an edge from one that is neither done nor in the order.
abbrev pub IsBlocked : List (List ℕ) → List ℕ → List ℕ → ℕ → Type 0
IsBlocked adj done order x =
    (v : ℕ) × (ws : List ℕ) × (get_elem? adj v ≡ some ws)
    × (1 ≤ count x ws)
    × (contains v done ≡ false)
    × (¬ In v order)

pub record Sorted (adj : List (List ℕ)) (done order : List ℕ) : Type 0 where
  pub topological : IsTopological adj done order
  pub complete :
      (x : ℕ)
      → x < length adj
      → ((contains x done ≡ true) ⊎ In x order) ⊎ IsBlocked adj done order x

Sorted-nil :
    (adj : List (List ℕ)) (done indeg : List ℕ) → Inv adj done [] indeg [] → Sorted adj done []
Sorted-nil adj done indeg inv = record {
  topological = tt;
  complete = λ x lt. elim (zero_or_pos (due adj done [] x)) [
    | inl z ↦ inl (inv.ripe x lt z)
    | inr p ↦
        let (v, ws, there, fresh, edge) = left-pos (count x) done 0 adj (omega (arith, p)) in
        inr (v, ws, there, edge, subst (λ n. contains n done ≡ false) (omega arith) fresh, λ i. i)
  ];
}

Sorted-cons :
    (adj : List (List ℕ)) (done q indeg order : List ℕ) (u : ℕ)
    → Inv adj done (u ∷ q) indeg []
    → Sorted adj (u ∷ done) order
    → Sorted adj done (u ∷ order)
Sorted-cons adj done q indeg order u inv rest =
    let (bound, fresh, none_due) = inv.queued u (inl refl) in
    record {
      topological = (
        λ v ws there edge. elim (Bool-cases (contains v done)) [
          | inl t ↦ t
          | inr f ↦ absurd (
              omega (
                arith,
                edge,
                left-zero (count u) done 0 v v adj ws (omega (arith, none_due)) there (omega arith)
                    f,
              ))
        ],
        fresh,
        rest.topological,
      );
      complete = λ x lt. elim (rest.complete x lt) [
        | inl (inl t) ↦ elim (contains-uncons u x done t) [
          | inl e ↦ inl (inr (inl e))
          | inr old ↦ inl (inl old)
        ]
        | inl (inr i) ↦ inl (inr (inr i))
        | inr (v, ws, there, edge, f, absent) ↦
            let (other, f') = not_contained u v done f in
            inr (v, ws, there, edge, f', elim [ inl e ↦ other e | inr i ↦ absent i ])
      ];
    }

-- The loop ends within the fuel, if that exceeds the number of nodes not yet taken.
pub kahn-Sorted :
    (adj : List (List ℕ)) (fuel : ℕ) (done q indeg : List ℕ)
    → Bounded adj
    → Inv adj done q indeg []
    → left (λ ws. 1) done 0 adj < fuel
    → (order : List ℕ) × (kahn fuel adj indeg q ≡ some order) × Sorted adj done order
unfolding kahn
kahn-Sorted adj zero done q indeg targets inv enough = absurd (omega (arith, enough))
kahn-Sorted adj (suc fuel) done [] indeg targets inv enough =
    ([], refl, Sorted-nil adj done indeg inv)
kahn-Sorted adj (suc fuel) done (u ∷ q) indeg targets inv enough =
    let (bound, fresh, none_due) = inv.queued u (inl refl) in
    let (ws, there) = get_elem?_total adj u bound in
    let (indeg', q', relaxed, inv') =
      relax-Inv adj (u ∷ done) q indeg ws (take-Inv adj done q indeg ws u inv there)
        (targets u ws there) in
    let (order, ends, sorted) =
      kahn-Sorted adj fuel (u ∷ done) q' indeg' targets inv'
        (omega (arith, enough, left-take (λ vs. 1) done 0 u u adj ws there (omega arith) fresh)) in
    (
      u ∷ order,
      and_then-some (get_elem? adj u) _ there
          ∙ and_then-some (relax ws indeg q) _ relaxed
          ∙ and_then-some (kahn fuel adj indeg' q') _ ends,
      Sorted-cons adj done q indeg order u inv sorted,
    )
