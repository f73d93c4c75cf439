-- ===== src/Common/Map.antt =====
-- Association lists, the model of HashMap and DashMap. The order of the list stands for the order
-- in which the map happens to iterate: no statement fixes it.
use mathlib.Core.Path.{◌≡◌, refl, subst}
use mathlib.Core.Logic.{inl, inr, ◌≢◌}
use mathlib.Core.Bool.{Bool, true, false}
use mathlib.Core.Option
use mathlib.Core.Option.{Option, none, some}
use mathlib.Core.List.{List, [], ◌∷◌, map}
use native.Mathlib.Omega.{arith}
use hyperspot.Common.Tests.{if◌then◌else◌, Bool-cases}
use hyperspot.Common.Lists.{All}
use hyperspot.Common.PartialEq.{PartialEq, ◌==◌, ==_refl}

module _ {K V : Type 0} ⦃e : PartialEq K⦄ where
  unfoldable pub insert : K → V → List (K × V) → List (K × V)
  insert key new [] = (key, new) ∷ []
  insert key new ((at, old) ∷ rest) =
      let behind = insert key new rest in
      if at == key then (key, new) ∷ rest else (at, old) ∷ behind

  unfoldable pub remove : K → List (K × V) → List (K × V)
  remove key [] = []
  remove key ((at, old) ∷ rest) =
      let behind = remove key rest in if at == key then behind else (at, old) ∷ behind

  unfoldable pub lookup : K → List (K × V) → Option V
  lookup key [] = none
  lookup key ((at, here) ∷ rest) =
      let behind = lookup key rest in if at == key then some here else behind

  unfoldable pub contains_key : K → List (K × V) → Bool
  contains_key k [] = false
  contains_key k ((j, w) ∷ m) = if j == k then true else contains_key k m

  pub keys : List (K × V) → List K
  keys m = map (λ p. p.0) m

  -- `get_mut`: an entry that is there is changed in place.
  unfoldable pub adjust : K → (V → V) → List (K × V) → List (K × V)
  adjust k f [] = []
  adjust k f ((j, w) ∷ m) = if j == k then (j, f w) ∷ m else (j, w) ∷ adjust k f m

  pub lookup-insert :
      (key other : K) (new : V) (entries : List (K × V))
      → lookup other (insert key new entries)
        ≡ (if key == other then some new else lookup other entries)
  unfolding insert lookup
  lookup-insert key other new [] = refl
  lookup-insert key other new ((at, old) ∷ rest) = ground (
    arith,
    lookup-insert key other new rest,
    e.agrees_iff at other,
    e.agrees_iff at key,
    e.agrees_iff key other,
  )

  pub lookup-insert_self : (k : K) (v : V) (m : List (K × V)) → lookup k (insert k v m) ≡ some v
  lookup-insert_self k v m = rw (lookup-insert k k v m, ==_refl k)

  pub lookup-remove :
      (k j : K) (m : List (K × V)) → lookup j (remove k m) ≡ (if k == j then none else lookup j m)
  unfolding lookup remove
  lookup-remove k j [] = ground arith
  lookup-remove k j ((i, w) ∷ m) =
      ground (arith, e.agrees_iff k j, e.agrees_iff i k, e.agrees_iff i j, lookup-remove k j m)

  pub contains_key-lookup :
      (k : K) (m : List (K × V)) → contains_key k m ≡ true → (v : V) × (lookup k m ≡ some v)
  unfolding lookup contains_key
  contains_key-lookup k [] h = cc
  contains_key-lookup k ((j, w) ∷ m) h = elim (Bool-cases (j == k)) [
    | inl q ↦ (w, rw q)
    | inr q ↦ let r = contains_key-lookup k m (rw q at h) in (r.0, rw q r.1)
  ]

  pub lookup-adjust :
      (k j : K) (f : V → V) (m : List (K × V))
      → lookup j (adjust k f m) ≡ (if k == j then Option.map f (lookup j m) else lookup j m)
  unfolding lookup adjust
  lookup-adjust k j f [] = ground arith
  lookup-adjust k j f ((i, w) ∷ m) =
      ground (arith, e.agrees_iff k j, e.agrees_iff i k, e.agrees_iff i j, lookup-adjust k j f m)

  -- Each key stands once, as in any HashMap.
  abbrev pub UniqueKeys : List (K × V) → Type 0
  UniqueKeys [] = Unit
  UniqueKeys ((j, w) ∷ m) = (lookup j m ≡ none) × UniqueKeys m

  pub lookup-All :
      (P : K × V → Type 0) (k : K) (m : List (K × V)) {v : V}
      → All P m
      → lookup k m ≡ some v
      → P (k, v)
  unfolding lookup
  lookup-All P k [] h q = cc
  lookup-All P k ((j, w) ∷ m) {v} h q = elim (Bool-cases (j == k)) [
    | inl t ↦ subst P (ground (arith, e.agrees_iff j k)) h.0
    | inr t ↦ lookup-All P k m h.1 (rw t at q)
  ]

  pub insert-All :
      (P : K × V → Type 0) (k : K) (v : V) (m : List (K × V))
      → P (k, v)
      → All P m
      → All P (insert k v m)
  unfolding insert
  insert-All P k v [] p h = (p, tt)
  insert-All P k v ((j, w) ∷ m) p h = elim (Bool-cases (j == k)) [
    | inl t ↦ rw t (p, h.1)
    | inr t ↦ rw t (h.0, insert-All P k v m p h.1)
  ]

  pub remove-All : (P : K × V → Type 0) (k : K) (m : List (K × V)) → All P m → All P (remove k m)
  unfolding remove
  remove-All P k [] h = tt
  remove-All P k ((j, w) ∷ m) h = elim (Bool-cases (j == k)) [
    | inl t ↦ rw t (remove-All P k m h.1)
    | inr t ↦ rw t (h.0, remove-All P k m h.1)
  ]

  pub adjust-All :
      (P : K × V → Type 0) (k : K) (f : V → V) (m : List (K × V))
      → ((j : K) (w : V) → P (j, w) → P (j, f w))
      → All P m
      → All P (adjust k f m)
  unfolding adjust
  adjust-All P k f [] keep h = tt
  adjust-All P k f ((j, w) ∷ m) keep h = elim (Bool-cases (j == k)) [
    | inl t ↦ rw t (keep j w h.0, h.1)
    | inr t ↦ rw t (h.0, adjust-All P k f m keep h.1)
  ]

  pub insert-UniqueKeys :
      (k : K) (v : V) (m : List (K × V)) → UniqueKeys m → UniqueKeys (insert k v m)
  unfolding insert
  insert-UniqueKeys k v [] u = (unfold lookup in refl, tt)
  insert-UniqueKeys k v ((j, w) ∷ m) u = elim (Bool-cases (j == k)) [
    | inl t ↦ rw t (ground (arith, e.agrees_iff j k), u.1)
    | inr t ↦ rw t (
      ground (arith, e.agrees_iff j k, e.agrees_iff k j, lookup-insert k j v m),
      insert-UniqueKeys k v m u.1,
    )
  ]

  pub adjust-UniqueKeys :
      (k : K) (f : V → V) (m : List (K × V)) → UniqueKeys m → UniqueKeys (adjust k f m)
  unfolding adjust
  adjust-UniqueKeys k f [] u = tt
  adjust-UniqueKeys k f ((j, w) ∷ m) u = elim (Bool-cases (j == k)) [
    | inl t ↦ rw t u
    | inr t ↦ rw t (
      ground (arith, e.agrees_iff j k, e.agrees_iff k j, lookup-adjust k j f m),
      adjust-UniqueKeys k f m u.1,
    )
  ]

  pub remove-UniqueKeys : (k : K) (m : List (K × V)) → UniqueKeys m → UniqueKeys (remove k m)
  unfolding remove
  remove-UniqueKeys k [] u = tt
  remove-UniqueKeys k ((j, w) ∷ m) u = elim (Bool-cases (j == k)) [
    | inl t ↦ rw t (remove-UniqueKeys k m u.1)
    | inr t ↦
        rw t (ground (arith, e.agrees_iff k j, lookup-remove k j m), remove-UniqueKeys k m u.1)
  ]

  -- What is left after a removal has another key.
  pub remove-All_ne :
      (P : K × V → Type 0) (k : K) (m : List (K × V))
      → All P m
      → All (λ p. P p × (p.0 ≢ k)) (remove k m)
  unfolding remove
  remove-All_ne P k [] h = tt
  remove-All_ne P k ((j, w) ∷ m) h = elim (Bool-cases (j == k)) [
    | inl t ↦ rw t (remove-All_ne P k m h.1)
    | inr t ↦ rw t ((h.0, ground (arith, e.agrees_iff j k)), remove-All_ne P k m h.1)
  ]

  pub remove-insert : (k : K) (v : V) (m : List (K × V)) → remove k (insert k v m) ≡ remove k m
  unfolding remove insert
  remove-insert k v [] = ground (arith, e.agrees_iff k k)
  remove-insert k v ((j, w) ∷ m) =
      ground (arith, e.agrees_iff k k, e.agrees_iff j k, remove-insert k v m)

  pub lookup-head : (j k : K) (w : V) (m : List (K × V)) → j ≡ k → lookup k ((j, w) ∷ m) ≡ some w
  unfolding lookup
  lookup-head j k w m q = ground (arith, e.agrees_iff j k)

  pub lookup-skip :
      (j k : K) (w v : V) (m : List (K × V))
      → lookup j m ≡ none
      → lookup k m ≡ some v
      → lookup k ((j, w) ∷ m) ≡ some v
  unfolding lookup
  lookup-skip j k w v m gone there = elim (Bool-cases (j == k)) [
    | inl t ↦ let same : j ≡ k = (e.agrees_iff j k).0 t in cc
    | inr t ↦ rw t there
  ]

  pub contains_key-insert :
      (k j : K) (v : V) (m : List (K × V))
      → contains_key j (insert k v m) ≡ (if k == j then true else contains_key j m)
  unfolding contains_key insert
  contains_key-insert k j v [] = ground arith
  contains_key-insert k j v ((i, w) ∷ m) =
      ground
        (arith, e.agrees_iff k j, e.agrees_iff i k, e.agrees_iff i j, contains_key-insert k j v m)
