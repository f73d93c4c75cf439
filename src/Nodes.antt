-- ===== src/Nodes.antt =====
-- modules/nodes_registry/src/domain (node_storage.rs, service.rs, error.rs), on the records of
-- libs/modkit-node-info/src/model.rs: the store of nodes with their system information and
-- capabilities. The HashMaps are association lists. Times are seconds not before 1970, so that
-- `(now - fetched).max(0)` is the subtraction that stops at 0. `Float` is f64, which no code here
-- looks into. What the collector answers is an argument, as it reads the machine.
pub mod Storage
pub mod Service
pub mod Caching
pub mod Refresh
mod Tests
use hyperspot.Common.{
  ℕ, ◌-◌, String, Bool, true, false, ◌||◌, not, Option, none, some, List, [], ◌∷◌, map, leb,
  if◌then◌else◌, ◌==◌, nat_key, string_key, is_empty, filter, any,
}
use mathlib.Core.Option
use hyperspot.Common.Map

pub data Result (E A : Type 0) : Type 0 where
  ok : A → Result E A
  err : E → Result E A

pub record Node : Type 0 where
  pub id : ℕ
  pub hostname : String
  pub ip_address : Option String
  pub created_at : ℕ
  pub updated_at : ℕ

pub record OsInfo : Type 0 where
  pub name : String
  pub version : String
  pub arch : String

pub record MemoryInfo : Type 0 where
  pub total_bytes : ℕ
  pub available_bytes : ℕ
  pub used_bytes : ℕ
  pub used_percent : ℕ

pub record HostInfo : Type 0 where
  pub hostname : String
  pub uptime_seconds : ℕ
  pub ip_addresses : List String

pub record BatteryInfo : Type 0 where
  pub on_battery : Bool
  pub percentage : ℕ

pub record CpuInfo (Float : Type 0) : Type 0 where
  pub model : String
  pub num_cpus : ℕ
  pub cores : ℕ
  pub frequency_mhz : Float

pub record GpuInfo (Float : Type 0) : Type 0 where
  pub model : String
  pub cores : Option ℕ
  pub total_memory_mb : Option Float
  pub used_memory_mb : Option Float

pub record NodeSysInfo (Float : Type 0) : Type 0 where
  pub node_id : ℕ
  pub os : OsInfo
  pub cpu : CpuInfo Float
  pub memory : MemoryInfo
  pub host : HostInfo
  pub gpus : List (GpuInfo Float)
  pub battery : Option BatteryInfo
  pub collected_at : ℕ

pub record SysCap (Float : Type 0) : Type 0 where
  pub key : String
  pub category : String
  pub name : String
  pub display_name : String
  pub present : Bool
  pub version : Option String
  pub amount : Option Float
  pub amount_dimension : Option String
  pub details : Option String
  pub cache_ttl_secs : ℕ
  pub fetched_at_secs : ℕ

pub record NodeSysCap (Float : Type 0) : Type 0 where
  pub node_id : ℕ
  pub capabilities : List (SysCap Float)
  pub collected_at : ℕ

pub record CachedNodeData (Float : Type 0) : Type 0 where
  pub node : Node
  pub sysinfo : Option (NodeSysInfo Float)
  pub syscap_system : Option (NodeSysCap Float)
  pub syscap_custom : List (String × SysCap Float)

-- The map, and whether its RwLock is poisoned.
pub record NodeStorage (Float : Type 0) : Type 0 where
  pub nodes : List (ℕ × CachedNodeData Float)
  pub poisoned : Bool

pub data NodeInfoError : Type 0 where
  sys_info_failed sys_cap_failed hardware_uuid_failed internal_failure : String → NodeInfoError

pub data DomainError : Type 0 where
  node_not_found : ℕ → DomainError
  sys_info_collection_failed sys_cap_collection_failed invalid_input internal : String → DomainError

module _ {Float : Type 0} where
  abbrev pub empty_storage : NodeStorage Float
  empty_storage = record { nodes = []; poisoned = false }

  unfoldable pub upsert_node : NodeStorage Float → Node → NodeStorage Float
  upsert_node s n = if s.poisoned then s else record s {
    nodes =
        Map.insert n.id
          (record { node = n; sysinfo = none; syscap_system = none; syscap_custom = [] }) s.nodes;
  }

  unfoldable pub get_node : NodeStorage Float → ℕ → Option Node
  get_node s id = if s.poisoned then none else Option.map (λ d. d.node) (Map.lookup id s.nodes)

  unfoldable pub list_nodes : NodeStorage Float → List Node
  list_nodes s = if s.poisoned then [] else map (λ p. p.1.node) s.nodes

  -- `get_mut` and the write, which the updates share: the store after it, and whether it was made.
  unfoldable pub update_node :
      NodeStorage Float
      → ℕ
      → (CachedNodeData Float → CachedNodeData Float)
      → NodeStorage Float × Bool
  update_node s id f =
      if s.poisoned
      then (s, false)
      else if Map.contains_key id s.nodes
      then (record s { nodes = Map.adjust id f s.nodes }, true)
      else (s, false)

  unfoldable pub update_sysinfo :
      NodeStorage Float → ℕ → NodeSysInfo Float → NodeStorage Float × Bool
  update_sysinfo s id i = update_node s id (λ d. record d { sysinfo = some i })

  unfoldable pub get_sysinfo : NodeStorage Float → ℕ → Option (NodeSysInfo Float)
  get_sysinfo s id =
      if s.poisoned then none else elim (Map.lookup id s.nodes) [ none ↦ none | some d ↦ d.sysinfo ]

  unfoldable pub update_syscap_system :
      NodeStorage Float → ℕ → NodeSysCap Float → NodeStorage Float × Bool
  update_syscap_system s id c = update_node s id (λ d. record d { syscap_system = some c })

  -- `for cap in caps { map.insert(cap.key, cap) }`.
  unfoldable pub insert_caps :
      List (SysCap Float) → List (String × SysCap Float) → List (String × SysCap Float)
  insert_caps [] m = m
  insert_caps (c ∷ cs) m = insert_caps cs (Map.insert c.key c m)

  -- `for (key, cap) in custom { map.insert(key, cap) }`.
  unfoldable pub insert_entries :
      List (String × SysCap Float) → List (String × SysCap Float) → List (String × SysCap Float)
  insert_entries [] m = m
  insert_entries ((k, c) ∷ cs) m = insert_entries cs (Map.insert k c m)

  abbrev pub system_caps : CachedNodeData Float → List (SysCap Float)
  system_caps d = elim d.syscap_system [ none ↦ [] | some c ↦ c.capabilities ]

  unfoldable pub cap_map : CachedNodeData Float → List (String × SysCap Float)
  cap_map d = insert_entries d.syscap_custom (insert_caps (system_caps d) [])

  -- `now` is the time of the merge.
  unfoldable pub get_syscap : NodeStorage Float → ℕ → ℕ → Option (NodeSysCap Float)
  get_syscap s id now = if s.poisoned then none else elim (Map.lookup id s.nodes) [
    | none ↦ none
    | some d ↦
        let m = cap_map d in
        if is_empty m
        then none
        else some (record { node_id = id; capabilities = map (λ p. p.1) m; collected_at = now })
  ]

  unfoldable pub set_custom_syscap :
      NodeStorage Float → ℕ → List (SysCap Float) → NodeStorage Float × Bool
  set_custom_syscap s id caps =
      update_node s id (λ d. record d { syscap_custom = insert_caps caps d.syscap_custom })

  unfoldable pub remove_keys :
      List String → List (String × SysCap Float) → List (String × SysCap Float)
  remove_keys [] m = m
  remove_keys (k ∷ ks) m = remove_keys ks (Map.remove k m)

  unfoldable pub remove_custom_syscap :
      NodeStorage Float → ℕ → List String → NodeStorage Float × Bool
  remove_custom_syscap s id keys =
      update_node s id (λ d. record d { syscap_custom = remove_keys keys d.syscap_custom })

  unfoldable pub clear_custom_syscap : NodeStorage Float → ℕ → NodeStorage Float × Bool
  clear_custom_syscap s id = update_node s id (λ d. record d { syscap_custom = [] })

  unfoldable pub cache_is_expired : SysCap Float → ℕ → Bool
  cache_is_expired c now = leb c.cache_ttl_secs (now - c.fetched_at_secs)

  unfoldable pub needs_syscap_refresh : NodeStorage Float → ℕ → String → ℕ → Bool
  needs_syscap_refresh s id key now = if s.poisoned then true else elim (Map.lookup id s.nodes) [
    | none ↦ true
    | some d ↦ elim d.syscap_system [
      | none ↦ true
      | some c ↦ any (λ p. if p.key == key then cache_is_expired p now else false) c.capabilities
    ]
  ]

  unfoldable pub get_expired_syscap_keys : NodeStorage Float → ℕ → ℕ → List String
  get_expired_syscap_keys s id now = if s.poisoned then [] else elim (Map.lookup id s.nodes) [
    | none ↦ []
    | some d ↦ map (λ p. p.key) (filter (λ p. cache_is_expired p now) (system_caps d))
  ]
