-- ===== src/Manager/Instances.antt =====
-- Lists of instances of one module: ids stay distinct, and which instance carries an id.
use hyperspot.Common.{
  ℕ, Bool, not, Option, none, some, List, [], ◌∷◌, ◌≡◌, refl, ◌≢◌, inl, inr, if◌then◌else◌, ◌==◌,
  nat_key, All, filter, arith, Bool-cases, Option-cases,
}
use mathlib.Core.Option
use hyperspot.Manager.{
  ModuleInstance, InstanceState, ModuleManager, set_state, heartbeat, upsert, update_first,
  sweep_instance, sweep_vec,
}

-- `find(|i| i.instance_id == id)`.
unfoldable pub find : ℕ → List ModuleInstance → Option ModuleInstance
find id [] = none
find id (x ∷ xs) = if x.instance_id == id then some x else find id xs

abbrev pub UniqueIds : List ModuleInstance → Type 0
UniqueIds [] = Unit
UniqueIds (x ∷ xs) = (find x.instance_id xs ≡ none) × UniqueIds xs

-- A change that keeps what identifies an instance.
abbrev pub KeepsIdentity : (ModuleInstance → ModuleInstance) → Type 0
KeepsIdentity f =
    (i : ModuleInstance) → ((f i).instance_id ≡ i.instance_id) × ((f i).module_name ≡ i.module_name)

pub set_state-KeepsIdentity : (s : InstanceState) → KeepsIdentity (set_state s)
set_state-KeepsIdentity s i = (refl, refl)

pub heartbeat-KeepsIdentity : (at : ℕ) → KeepsIdentity (heartbeat at)
unfolding heartbeat
heartbeat-KeepsIdentity at i = (refl, refl)

pub find-upsert :
    (i : ModuleInstance) (id : ℕ) (xs : List ModuleInstance)
    → find id (upsert i xs) ≡ (if i.instance_id == id then some i else find id xs)
unfolding find upsert
find-upsert i id [] = refl
find-upsert i id (x ∷ xs) = ground (arith, find-upsert i id xs)

pub find-update_first :
    (id j : ℕ) (f : ModuleInstance → ModuleInstance) (xs : List ModuleInstance)
    → KeepsIdentity f
    → find j (update_first id f xs) ≡ (if id == j then Option.map f (find j xs) else find j xs)
unfolding find update_first
find-update_first id j f [] k = ground arith
find-update_first id j f (x ∷ xs) k = ground (arith, k x, find-update_first id j f xs k)

pub upsert-UniqueIds :
    (i : ModuleInstance) (xs : List ModuleInstance) → UniqueIds xs → UniqueIds (upsert i xs)
unfolding upsert
upsert-UniqueIds i [] u = (unfold find in refl, tt)
upsert-UniqueIds i (x ∷ xs) u = elim (Bool-cases (x.instance_id == i.instance_id)) [
  | inl t ↦ rw t (ground (arith, u.0), u.1)
  | inr t ↦ rw t (ground (arith, find-upsert i x.instance_id xs), upsert-UniqueIds i xs u.1)
]

pub upsert-All :
    (P : ModuleInstance → Type 0) (i : ModuleInstance) (xs : List ModuleInstance)
    → P i
    → All P xs
    → All P (upsert i xs)
unfolding upsert
upsert-All P i [] p h = (p, tt)
upsert-All P i (x ∷ xs) p h = elim (Bool-cases (x.instance_id == i.instance_id)) [
  | inl t ↦ rw t (p, h.1)
  | inr t ↦ rw t (h.0, upsert-All P i xs p h.1)
]

pub upsert-ne-nil : (i : ModuleInstance) (xs : List ModuleInstance) → upsert i xs ≢ []
unfolding upsert
upsert-ne-nil i [] h = cc
upsert-ne-nil i (x ∷ xs) h = ground arith

pub update_first-UniqueIds :
    (id : ℕ) (f : ModuleInstance → ModuleInstance) (xs : List ModuleInstance)
    → KeepsIdentity f
    → UniqueIds xs
    → UniqueIds (update_first id f xs)
unfolding update_first
update_first-UniqueIds id f [] k u = tt
update_first-UniqueIds id f (x ∷ xs) k u = elim (Bool-cases (x.instance_id == id)) [
  | inl t ↦ rw t (ground (arith, k x, u.0), u.1)
  | inr t ↦ rw t (
    ground (arith, find-update_first id x.instance_id f xs k),
    update_first-UniqueIds id f xs k u.1,
  )
]

pub update_first-All :
    (P : ModuleInstance → Type 0) (id : ℕ) (f : ModuleInstance → ModuleInstance)
    (xs : List ModuleInstance)
    → ((i : ModuleInstance) → P i → P (f i))
    → All P xs
    → All P (update_first id f xs)
unfolding update_first
update_first-All P id f [] k h = tt
update_first-All P id f (x ∷ xs) k h = elim (Bool-cases (x.instance_id == id)) [
  | inl t ↦ rw t (k x h.0, h.1)
  | inr t ↦ rw t (h.0, update_first-All P id f xs k h.1)
]

pub update_first-ne-nil :
    (id : ℕ) (f : ModuleInstance → ModuleInstance) (xs : List ModuleInstance)
    → xs ≢ []
    → update_first id f xs ≢ []
unfolding update_first
update_first-ne-nil id f [] h e = h refl
update_first-ne-nil id f (x ∷ xs) h e = ground arith

-- `retain` of what `deregister` keeps.
pub find-filter :
    (id j : ℕ) (xs : List ModuleInstance)
    → find j (filter (λ i. not (i.instance_id == id)) xs) ≡ (if id == j then none else find j xs)
unfolding find
find-filter id j [] = ground arith
find-filter id j (x ∷ xs) = ground (arith, find-filter id j xs)

pub filter-UniqueIds :
    (id : ℕ) (xs : List ModuleInstance)
    → UniqueIds xs
    → UniqueIds (filter (λ i. not (i.instance_id == id)) xs)
filter-UniqueIds id [] u = tt
filter-UniqueIds id (x ∷ xs) u = elim (Bool-cases (x.instance_id == id)) [
  | inl t ↦ rw t (filter-UniqueIds id xs u.1)
  | inr t ↦ rw t (ground (arith, find-filter id x.instance_id xs), filter-UniqueIds id xs u.1)
]

pub filter-All :
    (P : ModuleInstance → Type 0) (p : ModuleInstance → Bool) (xs : List ModuleInstance)
    → All P xs
    → All P (filter p xs)
filter-All P p [] h = tt
filter-All P p (x ∷ xs) h = elim (Bool-cases (p x)) [
  | inl t ↦ rw t (h.0, filter-All P p xs h.1)
  | inr t ↦ rw t (filter-All P p xs h.1)
]

-- A sweep keeps who an instance is.
pub sweep_instance-identity :
    (m : ModuleManager) (now : ℕ) (i j : ModuleInstance)
    → sweep_instance m now i ≡ some j
    → (j.instance_id ≡ i.instance_id) × (j.module_name ≡ i.module_name)
unfolding sweep_instance
sweep_instance-identity m now i j h = ground arith

abbrev pub after_sweep : ModuleManager → ℕ → Option ModuleInstance → Option ModuleInstance
after_sweep m now none = none
after_sweep m now (some i) = sweep_instance m now i

pub find_none-sweep_vec :
    (m : ModuleManager) (now id : ℕ) (xs : List ModuleInstance)
    → find id xs ≡ none
    → find id (sweep_vec m now xs) ≡ none
unfolding find sweep_vec
find_none-sweep_vec m now id [] h = refl
find_none-sweep_vec m now id (x ∷ xs) h = elim (Option-cases (sweep_instance m now x)) [
  | inl e ↦ rw (e, sweep_vec) (ground (arith, find_none-sweep_vec m now id xs))
  | inr (j, e) ↦
      rw (e, sweep_vec)
        (ground (arith, sweep_instance-identity m now x j e, find_none-sweep_vec m now id xs))
]

pub find-sweep_vec :
    (m : ModuleManager) (now id : ℕ) (xs : List ModuleInstance)
    → UniqueIds xs
    → find id (sweep_vec m now xs) ≡ after_sweep m now (find id xs)
unfolding find sweep_vec
find-sweep_vec m now id [] u = refl
find-sweep_vec m now id (x ∷ xs) u = elim (Option-cases (sweep_instance m now x)) [
  | inl e ↦
      rw (e, sweep_vec)
        (ground
          (arith, find-sweep_vec m now id xs u.1, find_none-sweep_vec m now x.instance_id xs u.0))
  | inr (j, e) ↦
      rw (e, sweep_vec)
        (ground (arith, sweep_instance-identity m now x j e, find-sweep_vec m now id xs u.1))
]

pub sweep_vec-UniqueIds :
    (m : ModuleManager) (now : ℕ) (xs : List ModuleInstance)
    → UniqueIds xs
    → UniqueIds (sweep_vec m now xs)
unfolding sweep_vec
sweep_vec-UniqueIds m now [] u = tt
sweep_vec-UniqueIds m now (x ∷ xs) u = elim (Option-cases (sweep_instance m now x)) [
  | inl e ↦ rw (e, sweep_vec) (sweep_vec-UniqueIds m now xs u.1)
  | inr (j, e) ↦
      rw (e, sweep_vec)
        (
          rw (sweep_instance-identity m now x j e).0
              (find_none-sweep_vec m now x.instance_id xs u.0),
          sweep_vec-UniqueIds m now xs u.1,
        )
]

pub sweep_vec-All :
    (P : ModuleInstance → Type 0) (m : ModuleManager) (now : ℕ) (xs : List ModuleInstance)
    → ((i j : ModuleInstance) → sweep_instance m now i ≡ some j → P i → P j)
    → All P xs
    → All P (sweep_vec m now xs)
unfolding sweep_vec
sweep_vec-All P m now [] k h = tt
sweep_vec-All P m now (x ∷ xs) k h = elim (Option-cases (sweep_instance m now x)) [
  | inl e ↦ rw (e, sweep_vec) (sweep_vec-All P m now xs k h.1)
  | inr (j, e) ↦ rw (e, sweep_vec) (k x j e h.0, sweep_vec-All P m now xs k h.1)
]
