-- ===== src/Nodes/Tests.antt =====
-- One node with a capability that the system reports and a custom one under the same key.
use hyperspot.Common.{
  ℕ, ◌≡◌, refl, String, true, false, none, some, List, [], ◌∷◌, nat_key, string_key,
}
use hyperspot.Common.Map
use hyperspot.Nodes.{
  ok, Node, NodeSysInfo, SysCap, NodeSysCap, NodeStorage, empty_storage, upsert_node, get_node,
  get_sysinfo, get_syscap, update_node, update_sysinfo, update_syscap_system, cap_map, insert_caps,
  insert_entries, get_expired_syscap_keys, cache_is_expired,
}
use hyperspot.Nodes.Storage.{
  NodeCall, upserts, updates_syscap_system, sets_custom, run, find_cap, reported, effective,
  get_syscap-run,
}
use hyperspot.Nodes.Service.{new_service, get_node_sysinfo, get_node_syscap, needs_refresh, merged}
use hyperspot.Nodes.Caching.{get_node_sysinfo_again}
use hyperspot.Nodes.Refresh.{Answers, get_node_syscap-Answers}

abbrev node_seven : Node
node_seven = record {
  id = 7;
  hostname = "host";
  ip_address = none;
  created_at = 100;
  updated_at = 100;
}

abbrev gpu_cap : String → SysCap ℕ
gpu_cap shown = record {
  key = "gpu";
  category = "hardware";
  name = "gpu";
  display_name = shown;
  present = true;
  version = none;
  amount = some 2;
  amount_dimension = none;
  details = none;
  cache_ttl_secs = 60;
  fetched_at_secs = 100;
}

abbrev reported_caps : NodeSysCap ℕ
reported_caps = record { node_id = 7; capabilities = gpu_cap "system" ∷ []; collected_at = 100 }

abbrev history : List (NodeCall ℕ)
history =
    upserts node_seven
    ∷ updates_syscap_system 7 reported_caps
    ∷ sets_custom 7 (gpu_cap "custom" ∷ [])
    ∷ []

abbrev system_info : NodeSysInfo ℕ
system_info = record {
  node_id = 7;
  os = record { name = "linux"; version = "6"; arch = "x86" };
  cpu = record { model = "cpu"; num_cpus = 1; cores = 4; frequency_mhz = 3000 };
  memory = record { total_bytes = 8; available_bytes = 4; used_bytes = 4; used_percent = 50 };
  host = record { hostname = "host"; uptime_seconds = 5; ip_addresses = [] };
  gpus = [];
  battery = none;
  collected_at = 100;
}

get_syscap-run_example :
    find_cap "gpu" (reported (get_syscap (run empty_storage history) 7 120))
    ≡ effective "gpu" (Map.lookup 7 (run empty_storage history).nodes)
get_syscap-run_example = get_syscap-run history 7 120 "gpu"

abbrev service : NodeStorage ℕ
service = new_service node_seven

first_sysinfo : (get_node_sysinfo (λ t. t) service 7 (ok system_info)).1 ≡ ok system_info
unfolding new_service upsert_node get_node get_sysinfo get_node_sysinfo update_sysinfo update_node
    Map.insert Map.lookup Map.contains_key Map.adjust
first_sysinfo = refl

get_node_sysinfo_again_example :
    get_node_sysinfo
      (λ t. t)
      (get_node_sysinfo (λ t. t) service 7 (ok system_info)).0
      7
      (ok system_info)
    ≡ ((get_node_sysinfo (λ t. t) service 7 (ok system_info)).0, ok system_info)
get_node_sysinfo_again_example =
    get_node_sysinfo_again (λ t. t) service 7 (ok system_info) (ok system_info) first_sysinfo

abbrev answered : NodeSysCap ℕ
answered = record reported_caps { collected_at = 121 }

first_syscap : (get_node_syscap (λ t. t) service 7 false 120 121 (ok reported_caps)).1 ≡ ok answered
unfolding new_service upsert_node get_node get_syscap get_node_syscap needs_refresh merged cap_map
    insert_caps insert_entries get_expired_syscap_keys update_syscap_system update_node Map.insert
    Map.lookup Map.contains_key Map.adjust
first_syscap = refl

get_node_syscap-Answers_example :
    Answers service 7 false 120 121
      (ok reported_caps)
      answered
      (get_node_syscap (λ t. t) service 7 false 120 121 (ok reported_caps)).0
get_node_syscap-Answers_example =
    get_node_syscap-Answers (λ t. t) service 7 false 120 121 (ok reported_caps) first_syscap

-- Expired exactly at the end of its time to live.
expires_at_ttl : cache_is_expired (gpu_cap "system") 160 ≡ true
unfolding cache_is_expired
expires_at_ttl = refl

fresh_before_ttl : cache_is_expired (gpu_cap "system") 159 ≡ false
unfolding cache_is_expired
fresh_before_ttl = refl
