-- ===== src/Manager/Invariant.antt =====
-- What holds of the directory between two calls of module_manager.rs.
use hyperspot.Common.{
  ℕ, ◌∙◌, All-map, ◌⊎◌, In, String, Bool, true, false, none, List, [], ◌∷◌, ◌≡◌, refl, sym, ◌≢◌,
  inl, inr, if◌then◌else◌, string_key, All, is_empty, arith, Option-cases,
}
use mathlib.Core.Option.{get_or}
use hyperspot.Common.Map
use hyperspot.Common.Map.{UniqueKeys}
use hyperspot.Manager.{
  ModuleInstance, ModuleManager, ready, quarantined, draining, set_state, new,
  with_heartbeat_policy, register_instance, update_instance, mark_ready, heartbeat,
  update_heartbeat, mark_quarantined, mark_draining, deregister, evict_stale, forget_module,
  forget_modules, sweep_entries, sweep_vec, upsert, pick_instance_round_robin,
  pick_service_round_robin, choose, next_index, Offer, offers, candidates_of,
}
use hyperspot.Manager.Instances.{
  UniqueIds, KeepsIdentity, set_state-KeepsIdentity, heartbeat-KeepsIdentity, upsert-UniqueIds,
  upsert-All, upsert-ne-nil, update_first-UniqueIds, update_first-All, update_first-ne-nil,
  filter-UniqueIds, filter-All, sweep_instance-identity, sweep_vec-UniqueIds, sweep_vec-All,
}

abbrev pub Belongs : String → ModuleInstance → Type 0
Belongs name i = i.module_name ≡ name

-- The instances under one key are of that module, and no two share an id.
pub record IsEntry (p : String × List ModuleInstance) : Type 0 where
  pub unique : UniqueIds p.1
  pub belongs : All (Belongs p.0) p.1

abbrev pub IsFilled : String × List ModuleInstance → Type 0
IsFilled p = p.1 ≢ []

-- One entry for each module, none of them empty.
pub record IsWf (m : ModuleManager) : Type 0 where
  pub keys : UniqueKeys m.inner
  pub entries : All IsEntry m.inner
  pub filled : All IsFilled m.inner

new-IsWf : IsWf new
unfolding new
new-IsWf = record { keys = tt; entries = tt; filled = tt }

pub vec-IsEntry :
    (m : ModuleManager) (name : String)
    → IsWf m
    → IsEntry (name, get_or (Map.lookup name m.inner) [])
vec-IsEntry m name w = elim (Option-cases (Map.lookup name m.inner)) [
  | inl e ↦ rw e (record { unique = tt; belongs = tt })
  | inr (v, e) ↦ rw e (Map.lookup-All IsEntry name m.inner w.entries e)
]

register_instance-IsWf :
    (m : ModuleManager) (i : ModuleInstance) → IsWf m → IsWf (register_instance m i)
unfolding register_instance
register_instance-IsWf m i w = record {
  keys = Map.insert-UniqueKeys i.module_name _ m.inner w.keys;
  entries = Map.insert-All IsEntry i.module_name _ m.inner entry w.entries;
  filled = Map.insert-All IsFilled i.module_name _ m.inner (upsert-ne-nil i _) w.filled;
}
  where
    old : IsEntry (i.module_name, get_or (Map.lookup i.module_name m.inner) [])
    old = vec-IsEntry m i.module_name w

    entry : IsEntry (i.module_name, upsert i (get_or (Map.lookup i.module_name m.inner) []))
    entry = record {
      unique = upsert-UniqueIds i _ old.unique;
      belongs = upsert-All _ i _ refl old.belongs;
    }

update_instance-IsWf :
    (m : ModuleManager) (name : String) (id : ℕ) (f : ModuleInstance → ModuleInstance)
    → KeepsIdentity f
    → IsWf m
    → IsWf (update_instance m name id f)
unfolding update_instance
update_instance-IsWf m name id f k w = record {
  keys = Map.adjust-UniqueKeys name _ m.inner w.keys;
  entries = Map.adjust-All IsEntry name _ m.inner keep w.entries;
  filled = Map.adjust-All IsFilled name _ m.inner (λ j v. update_first-ne-nil id f v) w.filled;
}
  where
    keep :
        (j : String) (v : List ModuleInstance)
        → IsEntry (j, v)
        → IsEntry (j, hyperspot.Manager.update_first id f v)
    keep j v e = record {
      unique = update_first-UniqueIds id f v k e.unique;
      belongs = update_first-All _ id f v (λ i b. (k i).1 ∙ b) e.belongs;
    }

forget_module-IsWf : (m : ModuleManager) (name : String) → IsWf m → IsWf (forget_module name m)
unfolding forget_module
forget_module-IsWf m name w = record {
  keys = Map.remove-UniqueKeys name m.inner w.keys;
  entries = Map.remove-All IsEntry name m.inner w.entries;
  filled = Map.remove-All IsFilled name m.inner w.filled;
}

ne-nil_of_is_empty : {A : Type 0} (xs : List A) → is_empty xs ≡ false → xs ≢ []
ne-nil_of_is_empty xs h e = ground arith

deregister_found-IsWf :
    (m : ModuleManager) (name : String) (kept : List ModuleInstance) (b : Bool)
    → is_empty kept ≡ b
    → IsEntry (name, kept)
    → IsWf m
    → IsWf (
        let m' = record m { inner = Map.insert name kept m.inner } in
        if b then forget_module name m' else m')
unfolding forget_module
deregister_found-IsWf m name kept true e h w = record {
  keys = Map.remove-UniqueKeys name _ (Map.insert-UniqueKeys name kept m.inner w.keys);
  entries = Map.remove-All IsEntry name _ (Map.insert-All IsEntry name kept m.inner h w.entries);
  filled = rw (Map.remove-insert name kept m.inner) (Map.remove-All IsFilled name _ w.filled);
}
deregister_found-IsWf m name kept false e h w = record {
  keys = Map.insert-UniqueKeys name kept m.inner w.keys;
  entries = Map.insert-All IsEntry name kept m.inner h w.entries;
  filled = Map.insert-All IsFilled name kept m.inner (ne-nil_of_is_empty kept e) w.filled;
}

deregister-IsWf :
    (m : ModuleManager) (name : String) (id : ℕ) → IsWf m → IsWf (deregister m name id)
unfolding deregister
deregister-IsWf m name id w = elim (Option-cases (Map.lookup name m.inner)) [
  | inl e ↦ rw (e, deregister) w
  | inr (v, e) ↦
      let h = Map.lookup-All IsEntry name m.inner w.entries e in
      rw (e, deregister)
        (deregister_found-IsWf m name _ _ refl
          (record { unique = filter-UniqueIds id v h.unique; belongs = filter-All _ _ v h.belongs })
          w)
]

-- Every entry that a sweep leaves is filled, or its module is among those to forget.
abbrev FilledOr : List String → String × List ModuleInstance → Type 0
FilledOr names p = IsFilled p ⊎ In p.0 names

forget_modules-inner :
    (names : List String) (m : ModuleManager)
    → UniqueKeys m.inner
    → All IsEntry m.inner
    → All (FilledOr names) m.inner
    → IsWf (forget_modules names m)
unfolding forget_modules forget_module
forget_modules-inner [] m u e f = record {
  keys = u;
  entries = e;
  filled = All-map m.inner (λ p. elim [ inl h ↦ h | inr h ↦ absurd h ]) f;
}
forget_modules-inner (name ∷ names) m u e f =
    forget_modules-inner names _ (Map.remove-UniqueKeys name m.inner u)
      (Map.remove-All IsEntry name m.inner e)
      (All-map _ still (Map.remove-All_ne (FilledOr (name ∷ names)) name m.inner f))
  where
    still :
        (p : String × List ModuleInstance)
        → FilledOr (name ∷ names) p × (p.0 ≢ name)
        → FilledOr names p
    still p (inl h, n) = inl h
    still p (inr (inl h), n) = absurd (n (sym h))
    still p (inr (inr h), n) = inr h

lookup-none-sweep_entries :
    (m : ModuleManager) (now : ℕ) (name : String) (es : List (String × List ModuleInstance))
    → Map.lookup name es ≡ none
    → Map.lookup name (sweep_entries m now es).0 ≡ none
unfolding sweep_entries Map.lookup
lookup-none-sweep_entries m now name [] h = refl
lookup-none-sweep_entries m now name ((j, v) ∷ es) h =
    ground (arith, lookup-none-sweep_entries m now name es)

sweep_entries-UniqueKeys :
    (m : ModuleManager) (now : ℕ) (es : List (String × List ModuleInstance))
    → UniqueKeys es
    → UniqueKeys (sweep_entries m now es).0
unfolding sweep_entries
sweep_entries-UniqueKeys m now [] u = tt
sweep_entries-UniqueKeys m now ((j, v) ∷ es) u =
    (lookup-none-sweep_entries m now j es u.0, sweep_entries-UniqueKeys m now es u.1)

sweep_entries-IsEntry :
    (m : ModuleManager) (now : ℕ) (es : List (String × List ModuleInstance))
    → All IsEntry es
    → All IsEntry (sweep_entries m now es).0
unfolding sweep_entries
sweep_entries-IsEntry m now [] h = tt
sweep_entries-IsEntry m now ((j, v) ∷ es) h = (
  record {
    unique = sweep_vec-UniqueIds m now v h.0.unique;
    belongs =
        sweep_vec-All _ m now v (λ i k e b. (sweep_instance-identity m now i k e).1 ∙ b)
          h.0.belongs;
  },
  sweep_entries-IsEntry m now es h.1,
)

FilledOr-cons :
    (name : String) (v : List ModuleInstance) (names : List String)
    (es : List (String × List ModuleInstance)) (b : Bool)
    → is_empty v ≡ b
    → All (FilledOr names) es
    → All (FilledOr (if b then name ∷ names else names)) ((name, v) ∷ es)
FilledOr-cons name v names es true e h =
    (inr (inl refl), All-map es (λ p. elim [ inl f ↦ inl f | inr i ↦ inr (inr i) ]) h)
FilledOr-cons name v names es false e h = (inl (ne-nil_of_is_empty v e), h)

sweep_entries-FilledOr :
    (m : ModuleManager) (now : ℕ) (es : List (String × List ModuleInstance))
    → All (FilledOr (sweep_entries m now es).1) (sweep_entries m now es).0
unfolding sweep_entries
sweep_entries-FilledOr m now [] = tt
sweep_entries-FilledOr m now ((j, v) ∷ es) =
    FilledOr-cons j (sweep_vec m now v) _ _ _ refl (sweep_entries-FilledOr m now es)

pub evict_stale-IsWf : (m : ModuleManager) (now : ℕ) → IsWf m → IsWf (evict_stale m now)
unfolding evict_stale
evict_stale-IsWf m now w =
    forget_modules-inner _ _ (sweep_entries-UniqueKeys m now m.inner w.keys)
      (sweep_entries-IsEntry m now m.inner w.entries) (sweep_entries-FilledOr m now m.inner)

-- A pick moves a counter, and nothing else.
choose-inner :
    {A : Type 0} (m : ModuleManager) (key : String) (cs : List A)
    → (choose m key cs).0.inner ≡ m.inner
unfolding choose
choose-inner m key cs = refl

IsWf-of_inner : (m m' : ModuleManager) → m'.inner ≡ m.inner → IsWf m → IsWf m'
IsWf-of_inner m m' e w = record {
  keys = rw e w.keys;
  entries = rw e w.entries;
  filled = rw e w.filled;
}

pub pick_instance-inner :
    (m : ModuleManager) (name : String) → (pick_instance_round_robin m name).0.inner ≡ m.inner
unfolding pick_instance_round_robin choose
pick_instance-inner m name = ground arith

pub pick_service-inner :
    (m : ModuleManager) (service : String) → (pick_service_round_robin m service).0.inner ≡ m.inner
unfolding pick_service_round_robin
pick_service-inner m service = ground (arith, choose-inner m service (offers service m.inner))

-- The calls that change the directory, each with what it is given.
pub data Call : Type 0 where
  registers : ModuleInstance → Call
  marks_ready marks_quarantined marks_draining deregisters : String → ℕ → Call
  beats : String → ℕ → ℕ → Call
  evicts : ℕ → Call
  picks picks_service : String → Call

unfoldable pub step : ModuleManager → Call → ModuleManager
step m (registers i) = register_instance m i
step m (marks_ready name id) = mark_ready m name id
step m (marks_quarantined name id) = mark_quarantined m name id
step m (marks_draining name id) = mark_draining m name id
step m (deregisters name id) = deregister m name id
step m (beats name id at) = update_heartbeat m name id at
step m (evicts now) = evict_stale m now
step m (picks name) = (pick_instance_round_robin m name).0
step m (picks_service service) = (pick_service_round_robin m service).0

unfoldable pub run : ModuleManager → List Call → ModuleManager
run m [] = m
run m (c ∷ cs) = run (step m c) cs

pub step-IsWf : (m : ModuleManager) (c : Call) → IsWf m → IsWf (step m c)
unfolding step mark_ready mark_quarantined mark_draining update_heartbeat
step-IsWf m (registers i) w = register_instance-IsWf m i w
step-IsWf m (marks_ready name id) w =
    update_instance-IsWf m name id _ (set_state-KeepsIdentity ready) w
step-IsWf m (marks_quarantined name id) w =
    update_instance-IsWf m name id _ (set_state-KeepsIdentity quarantined) w
step-IsWf m (marks_draining name id) w =
    update_instance-IsWf m name id _ (set_state-KeepsIdentity draining) w
step-IsWf m (deregisters name id) w = deregister-IsWf m name id w
step-IsWf m (beats name id at) w = update_instance-IsWf m name id _ (heartbeat-KeepsIdentity at) w
step-IsWf m (evicts now) w = evict_stale-IsWf m now w
step-IsWf m (picks name) w = IsWf-of_inner m _ (pick_instance-inner m name) w
step-IsWf m (picks_service service) w = IsWf-of_inner m _ (pick_service-inner m service) w

run-IsWf : (m : ModuleManager) (cs : List Call) → IsWf m → IsWf (run m cs)
unfolding run
run-IsWf m [] w = w
run-IsWf m (c ∷ cs) w = run-IsWf (step m c) cs (step-IsWf m c w)

-- After any history of calls on a new manager, under any heartbeat policy: each module has one
-- entry, no entry is empty, no two instances of a module share an id, and each instance stands
-- under its own module.
pub run-new-IsWf :
    (ttl grace : ℕ) (cs : List Call) → IsWf (run (with_heartbeat_policy new ttl grace) cs)
unfolding with_heartbeat_policy
run-new-IsWf ttl grace cs =
    run-IsWf _ cs
      (record { keys = new-IsWf.keys; entries = new-IsWf.entries; filled = new-IsWf.filled })
