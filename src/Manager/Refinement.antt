-- ===== src/Manager/Refinement.antt =====
-- The directory seen as a function from a module's name and an instance's id: what each call of
-- module_manager.rs means, with the maps, the lists and the counters forgotten.
use hyperspot.Common.{
  ℕ, String, Bool, true, false, ◌&&◌, Option, none, some, List, [], ◌≡◌, refl, inl, inr,
  if◌then◌else◌, ◌==◌, nat_key, string_key, is_empty, filter, not, arith, Option-cases,
}
use mathlib.Core.Option
use mathlib.Core.Option.{get_or}
use hyperspot.Common.Map
use hyperspot.Manager.{
  ModuleInstance, ModuleManager, ready, quarantined, draining, set_state, heartbeat,
  register_instance, update_instance, mark_ready, mark_quarantined, mark_draining, update_heartbeat,
  deregister, forget_module, instances_of, upsert, update_first,
}
use hyperspot.Manager.Instances.{
  find, find-upsert, find-update_first, find-filter, find-sweep_vec, KeepsIdentity,
  set_state-KeepsIdentity, heartbeat-KeepsIdentity, after_sweep,
}
use hyperspot.Manager.Invariant.{
  IsWf, Call, registers, marks_ready, marks_quarantined, marks_draining, deregisters, beats, evicts,
  picks, picks_service, step, vec-IsEntry, pick_instance-inner, pick_service-inner,
}
use hyperspot.Manager.Eviction.{instances_of-evict_stale}

abbrev pub Directory : Type 0
Directory = String → ℕ → Option ModuleInstance

-- `vec.iter().find(|i| i.instance_id == id)` in the instances of the module.
pub view : ModuleManager → Directory
view m name id = find id (instances_of m name)

-- A change of the entry of one module and id.
abbrev pub at_entry :
    String → ℕ → (Option ModuleInstance → Option ModuleInstance) → Directory → Directory
at_entry n j f d name id = if n == name && j == id then f (d name id) else d name id

-- The meaning of a call; the manager gives the heartbeat policy.
pub meaning : ModuleManager → Call → Directory → Directory
meaning m (registers i) = at_entry i.module_name i.instance_id (λ _. some i)
meaning m (marks_ready n j) = at_entry n j (Option.map (set_state ready))
meaning m (marks_quarantined n j) = at_entry n j (Option.map (set_state quarantined))
meaning m (marks_draining n j) = at_entry n j (Option.map (set_state draining))
meaning m (beats n j at) = at_entry n j (Option.map (heartbeat at))
meaning m (deregisters n j) = at_entry n j (λ _. none)
meaning m (evicts now) = λ d name id. after_sweep m now (d name id)
meaning m (picks n) = λ d. d
meaning m (picks_service service) = λ d. d

view-register_instance :
    (m : ModuleManager) (i : ModuleInstance) (name : String) (id : ℕ)
    → view (register_instance m i) name id
      ≡ at_entry i.module_name i.instance_id (λ _. some i) (view m) name id
unfolding view register_instance instances_of
view-register_instance m i name id =
    rw
      (Map.lookup-insert i.module_name name
        (upsert i (get_or (Map.lookup i.module_name m.inner) [])) m.inner)
      (ground (
        arith,
        string_key.agrees_iff i.module_name name,
        find-upsert i id (get_or (Map.lookup i.module_name m.inner) []),
      ))

find-map-update_first :
    (j id : ℕ) (f : ModuleInstance → ModuleInstance) (o : Option (List ModuleInstance))
    → KeepsIdentity f
    → find id (get_or (Option.map (update_first j f) o) [])
      ≡ (if j == id then Option.map f (find id (get_or o [])) else find id (get_or o []))
unfolding find
find-map-update_first j id f none k = ground arith
find-map-update_first j id f (some v) k = find-update_first j id f v k

view-update_instance :
    (m : ModuleManager) (n : String) (j : ℕ) (f : ModuleInstance → ModuleInstance) (name : String)
    (id : ℕ)
    → KeepsIdentity f
    → view (update_instance m n j f) name id ≡ at_entry n j (Option.map f) (view m) name id
unfolding view update_instance instances_of
view-update_instance m n j f name id k =
    rw (Map.lookup-adjust n name (update_first j f) m.inner)
      (ground (arith, find-map-update_first j id f (Map.lookup name m.inner) k))

instances_of-kept :
    (m : ModuleManager) (n : String) (kept : List ModuleInstance) (b : Bool) (name : String)
    → is_empty kept ≡ b
    → instances_of
        (let m' = record m { inner = Map.insert n kept m.inner } in
          if b then forget_module n m' else m')
        name
      ≡ (if n == name then kept else instances_of m name)
unfolding instances_of forget_module
instances_of-kept m n kept true name e =
    rw (Map.remove-insert n kept m.inner, Map.lookup-remove n name m.inner) (ground arith)
instances_of-kept m n kept false name e = rw (Map.lookup-insert n name kept m.inner) (ground arith)

view-deregister :
    (m : ModuleManager) (n : String) (j : ℕ) (name : String) (id : ℕ)
    → view (deregister m n j) name id ≡ at_entry n j (λ _. none) (view m) name id
unfolding view deregister
view-deregister m n j name id = elim (Option-cases (Map.lookup n m.inner)) [
  | inl e ↦ rw (e, deregister) (absent e)
  | inr (v, e) ↦ rw (e, deregister, instances_of-kept m n _ _ name refl) (present v e)
]
  where
    absent :
        Map.lookup n m.inner ≡ none
        → find id (instances_of m name) ≡ at_entry n j (λ _. none) (view m) name id
    absent e = unfold instances_of find in ground (arith, string_key.agrees_iff n name)

    present :
        (v : List ModuleInstance)
        → Map.lookup n m.inner ≡ some v
        → find id
            (if n == name then filter (λ i. not (i.instance_id == j)) v else instances_of m name)
          ≡ at_entry n j (λ _. none) (view m) name id
    present v e =
        unfold instances_of in ground (arith, string_key.agrees_iff n name, find-filter j id v)

view_of_inner :
    (m m' : ModuleManager) (name : String) (id : ℕ)
    → m'.inner ≡ m.inner
    → view m' name id ≡ view m name id
unfolding view instances_of
view_of_inner m m' name id e = rw e

-- Refinement: in a well-formed directory each call does what its meaning says, to the entry that it
-- names, and leaves every other entry as it was.
pub view-step :
    (m : ModuleManager) (c : Call) (name : String) (id : ℕ)
    → IsWf m
    → view (step m c) name id ≡ meaning m c (view m) name id
unfolding step meaning mark_ready mark_quarantined mark_draining update_heartbeat
view-step m (registers i) name id w = view-register_instance m i name id
view-step m (marks_ready n j) name id w =
    view-update_instance m n j _ name id (set_state-KeepsIdentity ready)
view-step m (marks_quarantined n j) name id w =
    view-update_instance m n j _ name id (set_state-KeepsIdentity quarantined)
view-step m (marks_draining n j) name id w =
    view-update_instance m n j _ name id (set_state-KeepsIdentity draining)
view-step m (beats n j at) name id w =
    view-update_instance m n j _ name id (heartbeat-KeepsIdentity at)
view-step m (deregisters n j) name id w = view-deregister m n j name id
view-step m (evicts now) name id w =
    unfold view in
    rw (instances_of-evict_stale m now name w) (
      find-sweep_vec m now id (instances_of m name)
        (unfold instances_of in (vec-IsEntry m name w).unique))
view-step m (picks n) name id w = view_of_inner m _ name id (pick_instance-inner m n)
view-step m (picks_service service) name id w =
    view_of_inner m _ name id (pick_service-inner m service)
