-- ===== src/Nodes/Service.antt =====
-- modules/nodes_registry/src/domain/service.rs: the calls of the service on the store. Each gives
-- the store that it leaves and its answer. `collected` is what the collector answers if it is asked.
use hyperspot.Common.{
  ℕ, String, Bool, true, false, ◌||◌, not, Option, none, some, List, if◌then◌else◌, is_empty,
}
use hyperspot.Nodes.{
  Result, ok, err, Node, NodeSysInfo, SysCap, NodeSysCap, NodeStorage, NodeInfoError,
  sys_info_failed, sys_cap_failed, hardware_uuid_failed, internal_failure, DomainError,
  node_not_found, sys_info_collection_failed, sys_cap_collection_failed, internal, empty_storage,
  upsert_node, get_node, get_sysinfo, update_sysinfo, get_expired_syscap_keys, get_syscap,
  update_syscap_system, set_custom_syscap, remove_custom_syscap, clear_custom_syscap,
}

abbrev is_none : {A : Type 0} → Option A → Bool
is_none none = true
is_none (some a) = false

-- `format!("Hardware UUID failed: {msg}")` is an argument.
abbrev pub domain_error : (String → String) → NodeInfoError → DomainError
domain_error hardware_uuid_text (sys_info_failed msg) = sys_info_collection_failed msg
domain_error hardware_uuid_text (sys_cap_failed msg) = sys_cap_collection_failed msg
domain_error hardware_uuid_text (hardware_uuid_failed msg) = internal (hardware_uuid_text msg)
domain_error hardware_uuid_text (internal_failure msg) = internal msg

module _ {Float : Type 0} where
  unfoldable pub new_service : Node → NodeStorage Float
  new_service current_node = upsert_node empty_storage current_node

  unfoldable pub find_node : NodeStorage Float → ℕ → Result DomainError Node
  find_node s id = elim (get_node s id) [ none ↦ err (node_not_found id) | some n ↦ ok n ]

  unfoldable pub needs_refresh : NodeStorage Float → ℕ → Bool → ℕ → Bool
  needs_refresh s id force_refresh now =
      force_refresh
      || not (is_empty (get_expired_syscap_keys s id now))
      || is_none (get_syscap s id now)

  -- `get_syscap(..).ok_or(..)` at the end.
  unfoldable pub merged :
      NodeStorage Float → ℕ → ℕ → NodeStorage Float × Result DomainError (NodeSysCap Float)
  merged s id now = elim (get_syscap s id now) [
    | none ↦ (s, err (sys_cap_collection_failed "Failed to get syscap after refresh"))
    | some c ↦ (s, ok c)
  ]

module _ {Float : Type 0} (hardware_uuid_text : String → String) where
  unfoldable pub get_node_sysinfo :
      NodeStorage Float
      → ℕ
      → Result NodeInfoError (NodeSysInfo Float)
      → NodeStorage Float × Result DomainError (NodeSysInfo Float)
  get_node_sysinfo s id collected = elim (get_node s id) [
    | none ↦ (s, err (node_not_found id))
    | some n ↦ elim (get_sysinfo s id) [
      | some cached ↦ (s, ok cached)
      | none ↦ elim collected [
        | err e ↦ (s, err (domain_error hardware_uuid_text e))
        | ok i ↦ ((update_sysinfo s id i).0, ok i)
      ]
    ]
  ]

  -- `now` is the time of the expiry test and `now'` that of the answer.
  unfoldable pub get_node_syscap :
      NodeStorage Float
      → ℕ
      → Bool
      → ℕ
      → ℕ
      → Result NodeInfoError (NodeSysCap Float)
      → NodeStorage Float × Result DomainError (NodeSysCap Float)
  get_node_syscap s id force_refresh now now' collected = elim (get_node s id) [
    | none ↦ (s, err (node_not_found id))
    | some n ↦
        if needs_refresh s id force_refresh now
        then elim collected [
          | err e ↦ (s, err (domain_error hardware_uuid_text e))
          | ok c ↦ merged (update_syscap_system s id c).0 id now'
        ]
        else merged s id now'
  ]

-- An update's Boolean as an answer.
abbrev pub answer :
    {Float : Type 0}
    → ℕ
    → NodeStorage Float × Bool
    → NodeStorage Float × Result DomainError (Unit {0})
answer id (s, done) = (s, (if done then ok tt else err (node_not_found id)))

module _ {Float : Type 0} where
  unfoldable pub set_custom :
      NodeStorage Float
      → ℕ
      → List (SysCap Float)
      → NodeStorage Float × Result DomainError (Unit {0})
  set_custom s id caps = answer id (set_custom_syscap s id caps)

  unfoldable pub remove_custom :
      NodeStorage Float → ℕ → List String → NodeStorage Float × Result DomainError (Unit {0})
  remove_custom s id keys = answer id (remove_custom_syscap s id keys)

  unfoldable pub clear_custom :
      NodeStorage Float → ℕ → NodeStorage Float × Result DomainError (Unit {0})
  clear_custom s id = answer id (clear_custom_syscap s id)
