-- ===== src/Manager.antt =====
-- libs/modkit/src/runtime/module_manager.rs: the directory of live module instances. The DashMaps
-- are association lists; `Instant` and `Duration` are numbers of one unit and do not overflow. An
-- instance and the RwLock that it shares with its clones is one value, owned by the directory.
pub mod Instances
pub mod Invariant
pub mod Eviction
pub mod Rotation
pub mod Services
pub mod Refinement
mod Tests
use hyperspot.Common.{
  ℕ, ◌+◌, ◌-◌, ◌%◌, String, Bool, true, false, ◌&&◌, not, Option, none, some, List, [], ◌∷◌, ◌++◌,
  leb, if◌then◌else◌, ◌==◌, nat_key, string_key, length, get_elem?, is_empty, filter,
}
use mathlib.Core.Option.{get_or}
use hyperspot.Common.Map

pub record Endpoint : Type 0 where
  pub uri : String

pub data InstanceState : Type 0 where
  registered ready healthy quarantined draining : InstanceState

-- `matches!(state, Healthy | Ready)`.
abbrev pub is_pickable : InstanceState → Bool
is_pickable ready = true
is_pickable healthy = true
is_pickable _ = false

-- `matches!(state, Quarantined | Draining)`.
abbrev pub is_retired : InstanceState → Bool
is_retired quarantined = true
is_retired draining = true
is_retired _ = false

abbrev pub is_quarantined : InstanceState → Bool
is_quarantined quarantined = true
is_quarantined _ = false

abbrev pub is_registered : InstanceState → Bool
is_registered registered = true
is_registered _ = false

pub record InstanceRuntimeState : Type 0 where
  pub last_heartbeat : ℕ
  pub state : InstanceState

pub record ModuleInstance : Type 0 where
  pub module_name : String
  pub instance_id : ℕ
  pub control : Option Endpoint
  pub grpc_services : List (String × Endpoint)
  pub version : Option String
  pub inner : InstanceRuntimeState

-- `now` is `Instant::now()`.
pub new_instance : String → ℕ → ℕ → ModuleInstance
new_instance name id now = record {
  module_name = name;
  instance_id = id;
  control = none;
  grpc_services = [];
  version = none;
  inner = record { last_heartbeat = now; state = registered };
}

pub with_control : ModuleInstance → Endpoint → ModuleInstance
with_control i ep = record i { control = some ep }

pub with_version : ModuleInstance → String → ModuleInstance
with_version i v = record i { version = some v }

pub with_grpc_service : ModuleInstance → String → Endpoint → ModuleInstance
with_grpc_service i name ep = record i { grpc_services = Map.insert name ep i.grpc_services }

abbrev pub set_state : InstanceState → ModuleInstance → ModuleInstance
set_state s i = record i { inner = record { last_heartbeat = i.inner.last_heartbeat; state = s } }

pub record ModuleManager : Type 0 where
  pub inner : List (String × List ModuleInstance)
  pub rr_counters : List (String × ℕ)
  pub hb_ttl : ℕ
  pub hb_grace : ℕ

-- Durations in seconds.
pub new : ModuleManager
new = record { inner = []; rr_counters = []; hb_ttl = 15; hb_grace = 30 }

pub with_heartbeat_policy : ModuleManager → ℕ → ℕ → ModuleManager
with_heartbeat_policy m ttl grace = record m { hb_ttl = ttl; hb_grace = grace }

-- The instance with the same id is replaced where it stands, or the new one is pushed.
pub upsert : ModuleInstance → List ModuleInstance → List ModuleInstance
upsert i [] = i ∷ []
upsert i (x ∷ xs) = if x.instance_id == i.instance_id then i ∷ xs else x ∷ upsert i xs

pub register_instance : ModuleManager → ModuleInstance → ModuleManager
register_instance m i =
    let vec = get_or (Map.lookup i.module_name m.inner) [] in
    record m { inner = Map.insert i.module_name (upsert i vec) m.inner }

-- `vec.iter_mut().find(|i| i.instance_id == id)` and the write to what it finds.
pub update_first : ℕ → (ModuleInstance → ModuleInstance) → List ModuleInstance → List ModuleInstance
update_first id f [] = []
update_first id f (x ∷ xs) = if x.instance_id == id then f x ∷ xs else x ∷ update_first id f xs

-- The lookup that the four state changes share.
pub update_instance : ModuleManager → String → ℕ → (ModuleInstance → ModuleInstance) → ModuleManager
update_instance m name id f = record m { inner = Map.adjust name (update_first id f) m.inner }

pub mark_ready : ModuleManager → String → ℕ → ModuleManager
mark_ready m name id = update_instance m name id (set_state ready)

pub heartbeat : ℕ → ModuleInstance → ModuleInstance
heartbeat at i = record i {
  inner = record {
    last_heartbeat = at;
    state = if is_registered i.inner.state then healthy else i.inner.state;
  };
}

pub update_heartbeat : ModuleManager → String → ℕ → ℕ → ModuleManager
update_heartbeat m name id at = update_instance m name id (heartbeat at)

pub mark_quarantined : ModuleManager → String → ℕ → ModuleManager
mark_quarantined m name id = update_instance m name id (set_state quarantined)

pub mark_draining : ModuleManager → String → ℕ → ModuleManager
mark_draining m name id = update_instance m name id (set_state draining)

-- Both maps lose the module.
pub forget_module : String → ModuleManager → ModuleManager
forget_module name m = record m {
  inner = Map.remove name m.inner;
  rr_counters = Map.remove name m.rr_counters;
}

pub deregister : ModuleManager → String → ℕ → ModuleManager
unfolding forget_module
deregister m name id = elim (Map.lookup name m.inner) [
  | none ↦ m
  | some vec ↦
      let kept = filter (λ i. not (i.instance_id == id)) vec in
      let m' = record m { inner = Map.insert name kept m.inner } in
      if is_empty kept then forget_module name m' else m'
]

pub instances_of : ModuleManager → String → List ModuleInstance
instances_of m name = get_or (Map.lookup name m.inner) []

pub all_instances : List (String × List ModuleInstance) → List ModuleInstance
all_instances [] = []
all_instances ((name, vec) ∷ rest) = vec ++ all_instances rest

-- The closure of `retain`: `none` drops the instance.
pub sweep_instance : ModuleManager → ℕ → ModuleInstance → Option ModuleInstance
sweep_instance m now i =
    let age = now - i.inner.last_heartbeat in
    if leb m.hb_ttl age && not (is_retired i.inner.state)
    then some (set_state quarantined i)
    else if is_quarantined i.inner.state && leb (m.hb_ttl + m.hb_grace) age
    then none
    else some i

pub sweep_vec : ModuleManager → ℕ → List ModuleInstance → List ModuleInstance
sweep_vec m now [] = []
sweep_vec m now (i ∷ is) =
    let rest = sweep_vec m now is in
    elim (sweep_instance m now i) [ none ↦ rest | some j ↦ j ∷ rest ]

-- One pass over the entries; the modules left empty are remembered.
pub sweep_entries :
    ModuleManager
    → ℕ
    → List (String × List ModuleInstance)
    → List (String × List ModuleInstance) × List String
sweep_entries m now [] = ([], [])
sweep_entries m now ((name, vec) ∷ rest) =
    let (rest', empties) = sweep_entries m now rest in
    let vec' = sweep_vec m now vec in
    ((name, vec') ∷ rest', if is_empty vec' then name ∷ empties else empties)

pub forget_modules : List String → ModuleManager → ModuleManager
forget_modules [] m = m
forget_modules (name ∷ names) m = forget_modules names (forget_module name m)

pub evict_stale : ModuleManager → ℕ → ModuleManager
evict_stale m now =
    let (inner', empties) = sweep_entries m now m.inner in
    forget_modules empties (record m { inner = inner' })

-- The counter under a key gives the index now, and moves on by one.
pub next_index : List (String × ℕ) → String → ℕ → ℕ × List (String × ℕ)
next_index counters key len =
    let counter = get_or (Map.lookup key counters) 0 in
    (counter % len, Map.insert key ((counter + 1) % len) counters)

pub choose : {A : Type 0} → ModuleManager → String → List A → ModuleManager × Option A
unfolding next_index
choose m key candidates =
    let (idx, counters) = next_index m.rr_counters key (length candidates) in
    (record m { rr_counters = counters }, get_elem? candidates idx)

-- The pickable instances, or all of them where none is.
pub candidates_of : List ModuleInstance → List ModuleInstance
candidates_of vec =
    let fit = filter (λ i. is_pickable i.inner.state) vec in if is_empty fit then vec else fit

pub pick_instance_round_robin : ModuleManager → String → ModuleManager × Option ModuleInstance
pick_instance_round_robin m name = elim (Map.lookup name m.inner) [
  | none ↦ (m, none)
  | some vec ↦
      if is_empty vec
      then (m, none)
      else let candidates = candidates_of vec in
        if is_empty candidates then (m, none) else choose m name candidates
]

abbrev pub Offer : Type 0
Offer = String × ModuleInstance × Endpoint

pub offers_of : String → String → List ModuleInstance → List Offer
offers_of service name [] = []
offers_of service name (i ∷ is) =
    let rest = offers_of service name is in
    elim (Map.lookup service i.grpc_services) [
      | none ↦ rest
      | some ep ↦ if is_pickable i.inner.state then (name, i, ep) ∷ rest else rest
    ]

pub offers : String → List (String × List ModuleInstance) → List Offer
offers service [] = []
offers service ((name, vec) ∷ rest) = offers_of service name vec ++ offers service rest

pub pick_service_round_robin : ModuleManager → String → ModuleManager × Option Offer
pick_service_round_robin m service =
    let candidates = offers service m.inner in
    if is_empty candidates then (m, none) else choose m service candidates
