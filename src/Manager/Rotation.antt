-- ===== src/Manager/Rotation.antt =====
-- Which instance pick_instance_round_robin chooses, and that it passes over none.
use native.Mathlib.Nat.{
  mod-lt, mod-mod, mod-add-mod, add-mod-mod, add-mul-mod_self_left, mod-eq_of_lt, div-add-mod,
}
use hyperspot.Common.{
  ℕ, In-get_elem?, subst, zero, suc, ◌+◌, ◌-◌, ◌%◌, ◌/◌, ◌*◌, ◌<◌, String, Bool, true, false,
  Option, none, some, List, [], ◌∷◌, ◌≡◌, refl, sym, ◌≢◌, inl, inr, ◌⊎◌, ◌∙◌, ap, string_key, In,
  is_empty, filter, any, length, get_elem?, get_elem?_total, get_elem?-In, filter-In, In-filter,
  arith, Bool-cases, Option-cases,
}
use mathlib.Core.Option.{get_or}
use hyperspot.Common.Map
use hyperspot.Common.Map.{UniqueKeys}
use hyperspot.Manager.{
  ModuleInstance, ModuleManager, is_pickable, instances_of, candidates_of, choose, next_index,
  pick_instance_round_robin,
}
use hyperspot.Manager.Invariant.{pick_instance-inner}

length_pos : {A : Type 0} (xs : List A) → xs ≢ [] → 0 < length xs
length_pos [] h = absurd (h refl)
length_pos (x ∷ xs) h = omega arith

-- A choice among candidates is one of them.
pub choose_total :
    {A : Type 0} (m : ModuleManager) (key : String) (cs : List A)
    → cs ≢ []
    → (a : A) × ((choose m key cs).1 ≡ some a) × In a cs
unfolding choose next_index
choose_total m key cs h =
    let pos = length_pos cs h in
    let idx : ℕ = get_or (Map.lookup key m.rr_counters) 0 % length cs in
    let (a, e) = get_elem?_total cs idx (omega arith) in (a, e, get_elem?-In cs idx e)

any-filter :
    {A : Type 0} (p : A → Bool) (xs : List A) → any p xs ≡ true → is_empty (filter p xs) ≡ false
any-filter p [] h = cc
any-filter p (x ∷ xs) h = ground (arith, any-filter p xs)

candidates-In :
    (vec : List ModuleInstance) (i : ModuleInstance)
    → In i (candidates_of vec)
    → In i vec
      × (any (λ j. is_pickable j.inner.state) vec ≡ true → is_pickable i.inner.state ≡ true)
unfolding candidates_of
candidates-In vec i h = elim (Bool-cases (is_empty (filter (λ j. is_pickable j.inner.state) vec))) [
  | inl t ↦
      (rw t at h, λ a. absurd (let f = any-filter (λ j. is_pickable j.inner.state) vec a in cc))
  | inr t ↦ let (member, fit) = filter-In _ vec (rw t at h) in (member, λ _. fit)
]

candidates-ne-nil : (vec : List ModuleInstance) → vec ≢ [] → candidates_of vec ≢ []
unfolding candidates_of
candidates-ne-nil vec h e = ground arith

-- A pick answers `none` exactly where the module has no instance. Otherwise it answers one of the
-- module's instances, and one that is healthy or ready if any is.
pub pick_instance_result :
    (m : ModuleManager) (name : String)
    → ((instances_of m name ≡ []) × ((pick_instance_round_robin m name).1 ≡ none))
      ⊎ ((i : ModuleInstance) × ((pick_instance_round_robin m name).1 ≡ some i)
          × In i (instances_of m name)
          × (any (λ j. is_pickable j.inner.state) (instances_of m name) ≡ true
              → is_pickable i.inner.state ≡ true))
unfolding pick_instance_round_robin instances_of
pick_instance_result m name = elim (Option-cases (Map.lookup name m.inner)) [
  | inl e ↦ inl (rw e, rw (e, pick_instance_round_robin))
  | inr ([], e) ↦ inl (rw e, rw (e, pick_instance_round_robin))
  | inr (x ∷ xs, e) ↦
      let some_candidate = candidates-ne-nil (x ∷ xs) (λ q. cc) in
      let (i, chosen, member) = choose_total m name (candidates_of (x ∷ xs)) some_candidate in
      let (among, best) = candidates-In (x ∷ xs) i member in
      inr (
        i,
        rw (e, pick_instance_round_robin) (ground (arith, chosen, some_candidate)),
        rw e among,
        rw e best,
      )
]

-- The directory after `k` picks for one module, and the pick that comes next.
pub after_picks : ℕ → ModuleManager → String → ModuleManager
after_picks zero m name = m
after_picks (suc k) m name = (pick_instance_round_robin (after_picks k m name) name).0

abbrev counter : ModuleManager → String → ℕ
counter m name = get_or (Map.lookup name m.rr_counters) 0

after_picks-inner :
    (k : ℕ) (m : ModuleManager) (name : String) → (after_picks k m name).inner ≡ m.inner
unfolding after_picks
after_picks-inner zero m name = refl
after_picks-inner (suc k) m name =
    pick_instance-inner (after_picks k m name) name ∙ after_picks-inner k m name

-- A pick from a module with instances.
pick_filled :
    (m : ModuleManager) (name : String) (vec : List ModuleInstance)
    → Map.lookup name m.inner ≡ some vec
    → vec ≢ []
    → pick_instance_round_robin m name ≡ choose m name (candidates_of vec)
unfolding pick_instance_round_robin
pick_filled m name vec e h =
    rw (e, pick_instance_round_robin) (ground (arith, candidates-ne-nil vec h))

choose-counter :
    {A : Type 0} (m : ModuleManager) (name : String) (cs : List A)
    → counter (choose m name cs).0 name ≡ (counter m name + 1) % length cs
unfolding choose next_index
choose-counter m name cs =
    rw (Map.lookup-insert_self name ((counter m name + 1) % length cs) m.rr_counters)

turn : (a b k n : ℕ) → a % n ≡ (b + k) % n → (a + 1) % n % n ≡ (b + suc k) % n
turn a b k n e =
    mod-mod (a + 1) n
    ∙ sym (mod-add-mod a n 1)
    ∙ ap (λ (t : ℕ). (t + 1) % n) e
    ∙ mod-add-mod (b + k) n 1
    ∙ ap (λ (t : ℕ). t % n) (omega arith)

module _ (m : ModuleManager) (name : String) (vec : List ModuleInstance)
    (listed : Map.lookup name m.inner ≡ some vec) (filled : vec ≢ []) where
  after_picks-pick :
      (k : ℕ)
      → pick_instance_round_robin (after_picks k m name) name
        ≡ choose (after_picks k m name) name (candidates_of vec)
  after_picks-pick k =
      pick_filled (after_picks k m name) name vec (rw (after_picks-inner k m name) listed) filled

  -- The counter after `k` picks, up to the number of candidates.
  after_picks-counter :
      (k : ℕ)
      → counter (after_picks k m name) name % length (candidates_of vec)
        ≡ (counter m name + k) % length (candidates_of vec)
  unfolding after_picks
  after_picks-counter zero = ap (λ (t : ℕ). t % length (candidates_of vec)) (omega arith)
  after_picks-counter (suc k) =
      ap
        (λ (r : ModuleManager × Option ModuleInstance).
          counter r.0 name % length (candidates_of vec))
        (after_picks-pick k)
      ∙ ap (λ (t : ℕ). t % length (candidates_of vec))
          (choose-counter (after_picks k m name) name (candidates_of vec))
      ∙ turn _ _ k _ (after_picks-counter k)

  -- The pick after `k` others.
  after_picks-result :
      (k : ℕ)
      → (pick_instance_round_robin (after_picks k m name) name).1
        ≡ get_elem? (candidates_of vec) ((counter m name + k) % length (candidates_of vec))
  unfolding choose next_index
  after_picks-result k = rw (after_picks-pick k, ← after_picks-counter k) refl

-- How many picks away the candidate at `i` is.
distance : ℕ → ℕ → ℕ → ℕ
distance c i n = (i + (n - c % n)) % n

distance_lem : (c i n : ℕ) → i < n → (c + distance c i n) % n ≡ i
unfolding distance
distance_lem c i n h =
    add-mod-mod c (i + (n - c % n)) n
    ∙ ap (λ (t : ℕ). t % n) regroup
    ∙ add-mul-mod_self_left i n (c / n + 1)
    ∙ mod-eq_of_lt h
  where
    regroup : c + (i + (n - c % n)) ≡ i + n * (c / n + 1)
    regroup = omega (arith, div-add-mod c n, mod-lt c {m = n})

distance-lt : (c i n : ℕ) → i < n → distance c i n < n
unfolding distance
distance-lt c i n h = mod-lt (i + (n - c % n)) (omega arith)

fit_candidate :
    (vec : List ModuleInstance) (i : ModuleInstance)
    → In i vec
    → is_pickable i.inner.state ≡ true
    → In i (candidates_of vec)
unfolding candidates_of
fit_candidate vec i h fit =
    elim (Bool-cases (is_empty (filter (λ j. is_pickable j.inner.state) vec))) [
      | inl t ↦ rw t h
      | inr t ↦ rw t (In-filter _ vec h fit)
    ]

pub In-listed :
    (m : ModuleManager) (name : String) (i : ModuleInstance)
    → In i (instances_of m name)
    → (vec : List ModuleInstance) × (Map.lookup name m.inner ≡ some vec) × In i vec
unfolding instances_of
In-listed m name i h = elim (Option-cases (Map.lookup name m.inner)) [
  | inl e ↦ absurd (rw e at h)
  | inr (vec, e) ↦ (vec, e, rw e at h)
]

-- No starvation: while only this module is picked from, each of its healthy or ready instances is
-- chosen within as many picks as there are candidates.
pub pick_rotates :
    (m : ModuleManager) (name : String) (i : ModuleInstance)
    → In i (instances_of m name)
    → is_pickable i.inner.state ≡ true
    → (k : ℕ) × (k < length (candidates_of (instances_of m name)))
      × ((pick_instance_round_robin (after_picks k m name) name).1 ≡ some i)
pick_rotates m name i h fit = (k, rw same (distance-lt (counter m name) idx n place.1), found)
  where
    at : (vec : List ModuleInstance) × (Map.lookup name m.inner ≡ some vec) × In i vec
    at = In-listed m name i h

    same : instances_of m name ≡ at.0
    same = unfold instances_of in rw at.1

    filled : at.0 ≢ []
    filled e = subst (In i) e at.2

    n : ℕ
    n = length (candidates_of at.0)

    place : (j : ℕ) × (j < n) × (get_elem? (candidates_of at.0) j ≡ some i)
    place = In-get_elem? i _ (fit_candidate at.0 i at.2 fit)

    idx : ℕ
    idx = place.0

    k : ℕ
    k = distance (counter m name) idx n

    found : (pick_instance_round_robin (after_picks k m name) name).1 ≡ some i
    found =
        after_picks-result m name at.0 at.1 filled k
        ∙ rw (distance_lem (counter m name) idx n place.1) place.2
