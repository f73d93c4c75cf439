-- ===== src/Manager/Eviction.antt =====
-- What `evict_stale` does to each instance of the directory.
use hyperspot.Common.{
  ℕ, ◌+◌, ◌-◌, ◌≤◌, ◌<◌, String, Bool, true, false, Option, none, some, List, [], ◌∷◌, ◌≡◌, refl,
  ◌≢◌, inl, inr, ◌∙◌, ap, if◌then◌else◌, string_key, ==_refl, All, All-map, is_empty, arith,
  Option-cases, leb, dec_lt,
}
use mathlib.Core.Option
use mathlib.Core.Option.{get_or}
use hyperspot.Common.Map
use hyperspot.Common.Map.{UniqueKeys}
use hyperspot.Manager.{
  ModuleInstance, ModuleManager, InstanceState, registered, ready, healthy, quarantined, draining,
  is_retired, evict_stale, forget_module, forget_modules, sweep_entries, sweep_vec, sweep_instance,
  instances_of,
}
use hyperspot.Manager.Instances.{find, UniqueIds, after_sweep, find-sweep_vec}
use hyperspot.Manager.Invariant.{IsWf, vec-IsEntry, evict_stale-IsWf}

lookup-sweep_entries :
    (m : ModuleManager) (now : ℕ) (name : String) (es : List (String × List ModuleInstance))
    → Map.lookup name (sweep_entries m now es).0 ≡ Option.map (sweep_vec m now) (Map.lookup name es)
unfolding sweep_entries Map.lookup
lookup-sweep_entries m now name [] = refl
lookup-sweep_entries m now name ((j, v) ∷ es) = ground (arith, lookup-sweep_entries m now name es)

abbrev IsEmptied : List (String × List ModuleInstance) → String → Type 0
IsEmptied es name = Map.lookup name es ≡ some []

IsEmptied-cons :
    (j : String) (v : List ModuleInstance) (es : List (String × List ModuleInstance))
    → Map.lookup j es ≡ none
    → (name : String) → IsEmptied es name
    → IsEmptied ((j, v) ∷ es) name
unfolding Map.lookup
IsEmptied-cons j v es u name h = ground (arith, string_key.agrees_iff j name)

IsEmptied-sweep :
    (j : String) (v : List ModuleInstance) (es : List (String × List ModuleInstance))
    (names : List String) (b : Bool)
    → is_empty v ≡ b
    → Map.lookup j es ≡ none
    → All (IsEmptied es) names
    → All (IsEmptied ((j, v) ∷ es)) (if b then j ∷ names else names)
unfolding Map.lookup
IsEmptied-sweep j v es names true e u h =
    (ground (arith, ==_refl j), All-map names (IsEmptied-cons j v es u) h)
IsEmptied-sweep j v es names false e u h = All-map names (IsEmptied-cons j v es u) h

sweep_entries-IsEmptied :
    (m : ModuleManager) (now : ℕ) (es : List (String × List ModuleInstance))
    → UniqueKeys es
    → All (IsEmptied (sweep_entries m now es).0) (sweep_entries m now es).1
unfolding sweep_entries
sweep_entries-IsEmptied m now [] u = tt
sweep_entries-IsEmptied m now ((j, v) ∷ es) u =
    IsEmptied-sweep j (sweep_vec m now v) _ _ _ refl (rw (lookup-sweep_entries m now j es, u.0))
      (sweep_entries-IsEmptied m now es u.1)

-- An absent module and one with no instance look alike to `instances_of`.
abbrev listed : List (String × List ModuleInstance) → String → List ModuleInstance
listed es name = get_or (Map.lookup name es) []

listed-remove :
    (gone name : String) (es : List (String × List ModuleInstance))
    → listed es gone ≡ []
    → listed (Map.remove gone es) name ≡ listed es name
listed-remove gone name es h =
    rw (Map.lookup-remove gone name es) (ground (arith, string_key.agrees_iff gone name))

instances_of-forget_modules :
    (names : List String) (m : ModuleManager) (name : String)
    → All (λ n. listed m.inner n ≡ []) names
    → instances_of (forget_modules names m) name ≡ instances_of m name
unfolding forget_modules forget_module instances_of
instances_of-forget_modules [] m name h = refl
instances_of-forget_modules (n ∷ names) m name h =
    instances_of-forget_modules names (forget_module n m) name
      (All-map names (λ k e. listed-remove n k m.inner h.0 ∙ e) h.1)
    ∙ listed-remove n name m.inner h.0

-- The instances of a module after a sweep are those before it, each swept.
pub instances_of-evict_stale :
    (m : ModuleManager) (now : ℕ) (name : String)
    → IsWf m
    → instances_of (evict_stale m now) name ≡ sweep_vec m now (instances_of m name)
unfolding evict_stale instances_of
instances_of-evict_stale m now name w =
    instances_of-forget_modules _ _ name
      (All-map _ (λ n e. ap (λ o. get_or o []) e) (sweep_entries-IsEmptied m now m.inner w.keys))
    ∙ swept
  where
    swept :
        instances_of (record m { inner = (sweep_entries m now m.inner).0 }) name
        ≡ sweep_vec m now (instances_of m name)
    swept =
        rw (lookup-sweep_entries m now name m.inner)
          (elim (Option-cases (Map.lookup name m.inner)) [
            | inl e ↦ rw e (unfold sweep_vec in refl)
            | inr (v, e) ↦ rw e
          ])

-- The policy that the documentation promises, by the age of the last heartbeat: silence for `ttl`
-- quarantines, and a quarantined instance is evicted once it has been silent for `ttl + grace`.
pub data Fate (ttl grace age : ℕ) : InstanceState → Option InstanceState → Type 0 where
  fresh : (s : InstanceState) → age < ttl → Fate ttl grace age s (some s)
  suspected :
      (s : InstanceState)
      → ttl ≤ age
      → is_retired s ≡ false
      → Fate ttl grace age s (some quarantined)
  waiting : ttl ≤ age → age < ttl + grace → Fate ttl grace age quarantined (some quarantined)
  evicted : ttl + grace ≤ age → Fate ttl grace age quarantined none
  leaving : ttl ≤ age → Fate ttl grace age draining (some draining)

abbrev pub state_of : Option ModuleInstance → Option InstanceState
state_of none = none
state_of (some i) = some i.inner.state

-- Which way a sweep goes is a matter of the state and of the age.
sweep_fresh :
    (m : ModuleManager) (now : ℕ) (i : ModuleInstance)
    → now - i.inner.last_heartbeat < m.hb_ttl
    → state_of (sweep_instance m now i) ≡ some i.inner.state
unfolding sweep_instance
sweep_fresh m now i h = ground arith

sweep_suspected :
    (m : ModuleManager) (now : ℕ) (i : ModuleInstance)
    → m.hb_ttl ≤ now - i.inner.last_heartbeat
    → is_retired i.inner.state ≡ false
    → state_of (sweep_instance m now i) ≡ some quarantined
unfolding sweep_instance
sweep_suspected m now i h live = ground arith

sweep_quarantined :
    (m : ModuleManager) (now : ℕ) (i : ModuleInstance)
    → i.inner.state ≡ quarantined
    → state_of (sweep_instance m now i) ≡ (
        if leb (m.hb_ttl + m.hb_grace) (now - i.inner.last_heartbeat)
        then none
        else some quarantined)
unfolding sweep_instance
sweep_quarantined m now i e = ground arith

sweep_draining :
    (m : ModuleManager) (now : ℕ) (i : ModuleInstance)
    → i.inner.state ≡ draining
    → state_of (sweep_instance m now i) ≡ some draining
unfolding sweep_instance
sweep_draining m now i e = ground arith

-- The policy for an instance that has been silent for `ttl`.
stale-Fate :
    (m : ModuleManager) (now : ℕ) (i : ModuleInstance) (s : InstanceState)
    → i.inner.state ≡ s
    → m.hb_ttl ≤ now - i.inner.last_heartbeat
    → Fate m.hb_ttl m.hb_grace (now - i.inner.last_heartbeat) s (state_of (sweep_instance m now i))
stale-Fate m now i registered e h =
    rw (sweep_suspected m now i h (rw e)) (suspected registered h refl)
stale-Fate m now i ready e h = rw (sweep_suspected m now i h (rw e)) (suspected ready h refl)
stale-Fate m now i healthy e h = rw (sweep_suspected m now i h (rw e)) (suspected healthy h refl)
stale-Fate m now i draining e h = rw (sweep_draining m now i e) (leaving h)
stale-Fate m now i quarantined e h =
    rw (sweep_quarantined m now i e)
      (elim (dec_lt (now - i.inner.last_heartbeat) (m.hb_ttl + m.hb_grace)) [
        | yes p ↦
            let t : leb (m.hb_ttl + m.hb_grace) (now - i.inner.last_heartbeat) ≡ false =
              ground arith in
            rw t (waiting h p)
        | no p ↦
            let t : leb (m.hb_ttl + m.hb_grace) (now - i.inner.last_heartbeat) ≡ true =
              ground arith in
            rw t (evicted (omega arith))
      ])

sweep_instance-Fate :
    (m : ModuleManager) (now : ℕ) (i : ModuleInstance)
    → Fate m.hb_ttl m.hb_grace
        (now - i.inner.last_heartbeat)
        i.inner.state
        (state_of (sweep_instance m now i))
sweep_instance-Fate m now i = elim (dec_lt (now - i.inner.last_heartbeat) m.hb_ttl) [
  | yes p ↦ rw (sweep_fresh m now i p) (fresh i.inner.state p)
  | no p ↦ stale-Fate m now i i.inner.state refl (omega arith)
]

-- In a well-formed directory, `evict_stale` brings each registered instance to the fate that the
-- heartbeat policy gives its state and the age of its last heartbeat: kept as it is, quarantined, or
-- evicted. An id that is not registered for the module is not there afterwards.
pub evict_stale-Fate :
    (m : ModuleManager) (now : ℕ) (name : String) (id : ℕ) (i : ModuleInstance)
    → IsWf m
    → find id (instances_of m name) ≡ some i
    → Fate m.hb_ttl m.hb_grace
        (now - i.inner.last_heartbeat)
        i.inner.state
        (state_of (find id (instances_of (evict_stale m now) name)))
evict_stale-Fate m now name id i w h =
    rw (instances_of-evict_stale m now name w, found) (sweep_instance-Fate m now i)
  where
    found : find id (sweep_vec m now (instances_of m name)) ≡ sweep_instance m now i
    found =
        find-sweep_vec m now id (instances_of m name)
          (unfold instances_of in (vec-IsEntry m name w).unique)
        ∙ ap (after_sweep m now) h

-- The policy's parameters and the heartbeat survive a sweep.
sweep_instance-heartbeat :
    (m : ModuleManager) (now : ℕ) (i j : ModuleInstance)
    → sweep_instance m now i ≡ some j
    → j.inner.last_heartbeat ≡ i.inner.last_heartbeat
unfolding sweep_instance
sweep_instance-heartbeat m now i j h = ground arith

evict_stale-policy :
    (names : List String) (m : ModuleManager)
    → ((forget_modules names m).hb_ttl ≡ m.hb_ttl)
      × ((forget_modules names m).hb_grace ≡ m.hb_grace)
unfolding forget_modules forget_module
evict_stale-policy [] m = (refl, refl)
evict_stale-policy (n ∷ names) m = evict_stale-policy names (forget_module n m)

sweep_again :
    (m m' : ModuleManager) (now later : ℕ) (i : ModuleInstance)
    → m'.hb_ttl ≡ m.hb_ttl
    → m'.hb_grace ≡ m.hb_grace
    → i.inner.state ≢ draining
    → m.hb_ttl ≤ now - i.inner.last_heartbeat
    → m.hb_ttl + m.hb_grace ≤ later - i.inner.last_heartbeat
    → after_sweep m' later (sweep_instance m now i) ≡ none
unfolding sweep_instance
sweep_again m m' now later i et eg nd stale gone = ground arith

-- Two sweeps evict: an instance that is not draining, silent for `ttl` at the first and for
-- `ttl + grace` at the second, is no longer in the directory.
pub evict_stale_twice :
    (m : ModuleManager) (now later : ℕ) (name : String) (id : ℕ) (i : ModuleInstance)
    → IsWf m
    → find id (instances_of m name) ≡ some i
    → i.inner.state ≢ draining
    → m.hb_ttl ≤ now - i.inner.last_heartbeat
    → m.hb_ttl + m.hb_grace ≤ later - i.inner.last_heartbeat
    → find id (instances_of (evict_stale (evict_stale m now) later) name) ≡ none
evict_stale_twice m now later name id i w h nd stale gone =
    rw (twice, h) (sweep_again m (evict_stale m now) now later i policy.0 policy.1 nd stale gone)
  where
    unique : (n : ModuleManager) → IsWf n → UniqueIds (instances_of n name)
    unique n v = unfold instances_of in (vec-IsEntry n name v).unique

    w' : IsWf (evict_stale m now)
    w' = evict_stale-IsWf m now w

    policy : ((evict_stale m now).hb_ttl ≡ m.hb_ttl) × ((evict_stale m now).hb_grace ≡ m.hb_grace)
    policy = unfold evict_stale in evict_stale-policy _ _

    twice :
        find id (instances_of (evict_stale (evict_stale m now) later) name)
        ≡ after_sweep (evict_stale m now) later (after_sweep m now (find id (instances_of m name)))
    twice = rw (instances_of-evict_stale (evict_stale m now) later name w') (
        find-sweep_vec (evict_stale m now) later id _ (unique (evict_stale m now) w')
        ∙ ap (after_sweep (evict_stale m now) later)
            (rw (instances_of-evict_stale m now name w) (find-sweep_vec m now id _ (unique m w))))
