-- ===== src/Manager/Tests.antt =====
-- Runs of module_manager.rs, and the theorems at concrete directories.
use hyperspot.Common.{
  ℕ, ◌<◌, ◌≡◌, refl, String, true, none, some, List, [], ◌∷◌, inl, inr, ◌⊎◌, In, length, string_key,
}
use mathlib.Core.Option
use hyperspot.Common.Map
use hyperspot.Manager.{
  ModuleInstance, ModuleManager, Endpoint, Offer, registered, ready, healthy, quarantined, draining,
  is_pickable, new, new_instance, with_control, with_version, with_grpc_service,
  with_heartbeat_policy, instances_of, all_instances, candidates_of, evict_stale,
  pick_instance_round_robin, pick_service_round_robin, register_instance, update_heartbeat,
  mark_ready, mark_draining, deregister, heartbeat,
}
use hyperspot.Manager.Instances.{find}
use hyperspot.Manager.Invariant.{
  IsWf, run, step, registers, beats, marks_ready, marks_draining, evicts, picks, deregisters,
  run-new-IsWf,
}
use hyperspot.Manager.Eviction.{Fate, evict_stale-Fate, state_of}
use hyperspot.Manager.Rotation.{pick_rotates, after_picks}
use hyperspot.Manager.Services.{pick_service_result}
use hyperspot.Manager.Refinement.{view, meaning, view-step}

abbrev endpoint : Endpoint
endpoint = record { uri = "http://127.0.0.1:9000" }

-- Two instances of one module, the second with a service; seen at time 100.
abbrev one : ModuleInstance
one = record {
  module_name = "calc";
  instance_id = 1;
  control = none;
  grpc_services = [];
  version = none;
  inner = record { last_heartbeat = 100; state = healthy };
}

abbrev two : ModuleInstance
two = record {
  module_name = "calc";
  instance_id = 2;
  control = some endpoint;
  grpc_services = ("calc.v1", endpoint) ∷ [];
  version = some "1.0";
  inner = record { last_heartbeat = 100; state = ready };
}

abbrev calls : List hyperspot.Manager.Invariant.Call
calls = registers one ∷ registers two ∷ []

abbrev live : ModuleManager
live = run (with_heartbeat_policy new 10 20) calls

live-IsWf : IsWf live
live-IsWf = run-new-IsWf 10 20 calls

-- After eleven units of silence both are quarantined, after thirty-one they are gone.
silence :
    Option.map (λ i. i.inner.state) (find 1 (instances_of (evict_stale live 111) "calc"))
    ≡ some quarantined
unfolding find instances_of evict_stale run step with_heartbeat_policy new register_instance
    hyperspot.Manager.upsert Map.lookup Map.insert hyperspot.Manager.sweep_entries
    hyperspot.Manager.sweep_vec hyperspot.Manager.sweep_instance hyperspot.Manager.forget_modules
silence = refl

live-one : find 1 (instances_of live "calc") ≡ some one
unfolding find instances_of run step with_heartbeat_policy new register_instance
    hyperspot.Manager.upsert Map.lookup Map.insert
live-one = refl

live_listed : instances_of live "calc" ≡ one ∷ two ∷ []
unfolding instances_of run step with_heartbeat_policy new register_instance hyperspot.Manager.upsert
    Map.lookup Map.insert
live_listed = refl

run-new-IsWf_example : IsWf (run (with_heartbeat_policy new 10 20) calls)
run-new-IsWf_example = run-new-IsWf 10 20 calls

evict_stale-Fate_example :
    Fate live.hb_ttl live.hb_grace 11 healthy
      (state_of (find 1 (instances_of (evict_stale live 111) "calc")))
evict_stale-Fate_example = evict_stale-Fate live 111 "calc" 1 one live-IsWf live-one

pick_rotates_example :
    (k : ℕ) × (k < length (candidates_of (instances_of live "calc")))
    × ((pick_instance_round_robin (after_picks k live "calc") "calc").1 ≡ some two)
pick_rotates_example = pick_rotates live "calc" two (rw live_listed (inr (inl refl))) refl

pick_service_result_example :
    (((pick_service_round_robin live "calc.v1").1 ≡ none)
      × ((name : String) (i : ModuleInstance) (ep : Endpoint)
          → In i (instances_of live name)
          → Map.lookup "calc.v1" i.grpc_services ≡ some ep
          → ¬ (is_pickable i.inner.state ≡ true)))
    ⊎ ((o : Offer) × ((pick_service_round_robin live "calc.v1").1 ≡ some o)
        × In o.1 (instances_of live o.0)
        × (Map.lookup "calc.v1" o.1.grpc_services ≡ some o.2)
        × (is_pickable o.1.inner.state ≡ true))
pick_service_result_example = pick_service_result live "calc.v1" live-IsWf

view-step_example :
    view (step live (deregisters "calc" 1)) "calc" 2
    ≡ meaning live (deregisters "calc" 1) (view live) "calc" 2
view-step_example = view-step live (deregisters "calc" 1) "calc" 2 live-IsWf
