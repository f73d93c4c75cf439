-- ===== src/Nodes/Storage.antt =====
-- node_storage.rs: what the updates do to the map, and the capabilities that it reports after any
-- history of calls.
use hyperspot.Common.{
  ℕ, ◌≡◌, refl, inl, inr, String, false, Option, none, some, List, [], ◌∷◌, map, if◌then◌else◌,
  ◌==◌, nat_key, string_key, is_empty, All, Bool-cases, Option-cases,
}
use hyperspot.Common.Map
use hyperspot.Common.Map.{UniqueKeys}
use hyperspot.Nodes.{
  Node, NodeSysInfo, SysCap, NodeSysCap, CachedNodeData, NodeStorage, empty_storage, upsert_node,
  update_node, update_sysinfo, update_syscap_system, insert_caps, insert_entries, system_caps,
  cap_map, get_syscap, set_custom_syscap, remove_keys, remove_custom_syscap, clear_custom_syscap,
}

abbrev pub or_else : {A : Type 0} → Option A → Option A → Option A
or_else none b = b
or_else (some a) b = some a

or_else-none : {A : Type 0} (o : Option A) → or_else o none ≡ o
or_else-none none = refl
or_else-none (some a) = refl

module _ {Float : Type 0} where
  -- The last of the capabilities with the key: the one that stays in a map filled in order.
  abbrev pub latest : String → List (SysCap Float) → Option (SysCap Float)
  latest key [] = none
  latest key (c ∷ cs) = or_else (latest key cs) (if c.key == key then some c else none)

  abbrev pub find_cap : String → List (SysCap Float) → Option (SysCap Float)
  find_cap key [] = none
  find_cap key (c ∷ cs) = if c.key == key then some c else find_cap key cs

  abbrev pub reported : Option (NodeSysCap Float) → List (SysCap Float)
  reported none = []
  reported (some c) = c.capabilities

  -- The custom capability of a node under the key, else the one that the system reported last.
  abbrev pub effective : String → Option (CachedNodeData Float) → Option (SysCap Float)
  effective key none = none
  effective key (some d) = or_else (Map.lookup key d.syscap_custom) (latest key (system_caps d))

  abbrev pub IsKeyed : String × SysCap Float → Type 0
  IsKeyed p = p.1.key ≡ p.0

  pub record IsData (p : ℕ × CachedNodeData Float) : Type 0 where
    pub unique : UniqueKeys p.1.syscap_custom
    pub keyed : All IsKeyed p.1.syscap_custom

  pub record IsWf (s : NodeStorage Float) : Type 0 where
    pub healthy : s.poisoned ≡ false
    pub entries : All IsData s.nodes

  lookup-insert_caps :
      (key : String) (cs : List (SysCap Float)) (m : List (String × SysCap Float))
      → Map.lookup key (insert_caps cs m) ≡ or_else (latest key cs) (Map.lookup key m)
  unfolding insert_caps
  lookup-insert_caps key [] m = refl
  lookup-insert_caps key (c ∷ cs) m =
      rw (lookup-insert_caps key cs (Map.insert c.key c m), Map.lookup-insert c.key key c m)
        (elim (Option-cases (latest key cs)) [
          | inl q ↦
              rw q (elim (Bool-cases (c.key == key)) [ inl t ↦ rw t refl | inr t ↦ rw t refl ])
          | inr (d, q) ↦ rw q refl
        ])

  lookup-insert_entries :
      (key : String) (es m : List (String × SysCap Float))
      → UniqueKeys es
      → Map.lookup key (insert_entries es m) ≡ or_else (Map.lookup key es) (Map.lookup key m)
  unfolding insert_entries Map.lookup
  lookup-insert_entries key [] m u = refl
  lookup-insert_entries key ((j, c) ∷ es) m u =
      rw (lookup-insert_entries key es (Map.insert j c m) u.1, Map.lookup-insert j key c m)
        (elim (Bool-cases (j == key)) [
          | inl t ↦
              let same : j ≡ key = (string_key.agrees_iff j key).0 t in
              let gone : Map.lookup key es ≡ none = rw same at u.0 in rw (t, gone) refl
          | inr t ↦ rw t refl
        ])

  insert_caps-IsKeyed :
      (cs : List (SysCap Float)) (m : List (String × SysCap Float))
      → All IsKeyed m
      → All IsKeyed (insert_caps cs m)
  unfolding insert_caps
  insert_caps-IsKeyed [] m h = h
  insert_caps-IsKeyed (c ∷ cs) m h =
      insert_caps-IsKeyed cs (Map.insert c.key c m) (Map.insert-All IsKeyed c.key c m refl h)

  insert_caps-UniqueKeys :
      (cs : List (SysCap Float)) (m : List (String × SysCap Float))
      → UniqueKeys m
      → UniqueKeys (insert_caps cs m)
  unfolding insert_caps
  insert_caps-UniqueKeys [] m h = h
  insert_caps-UniqueKeys (c ∷ cs) m h =
      insert_caps-UniqueKeys cs (Map.insert c.key c m) (Map.insert-UniqueKeys c.key c m h)

  insert_entries-IsKeyed :
      (es m : List (String × SysCap Float))
      → All IsKeyed es
      → All IsKeyed m
      → All IsKeyed (insert_entries es m)
  unfolding insert_entries
  insert_entries-IsKeyed [] m k h = h
  insert_entries-IsKeyed ((j, c) ∷ es) m k h =
      insert_entries-IsKeyed es (Map.insert j c m) k.1 (Map.insert-All IsKeyed j c m k.0 h)

  remove_keys-IsKeyed :
      (ks : List String) (m : List (String × SysCap Float))
      → All IsKeyed m
      → All IsKeyed (remove_keys ks m)
  unfolding remove_keys
  remove_keys-IsKeyed [] m h = h
  remove_keys-IsKeyed (k ∷ ks) m h =
      remove_keys-IsKeyed ks (Map.remove k m) (Map.remove-All IsKeyed k m h)

  remove_keys-UniqueKeys :
      (ks : List String) (m : List (String × SysCap Float))
      → UniqueKeys m
      → UniqueKeys (remove_keys ks m)
  unfolding remove_keys
  remove_keys-UniqueKeys [] m h = h
  remove_keys-UniqueKeys (k ∷ ks) m h =
      remove_keys-UniqueKeys ks (Map.remove k m) (Map.remove-UniqueKeys k m h)

  find_cap-values :
      (key : String) (m : List (String × SysCap Float))
      → All IsKeyed m
      → find_cap key (map (λ p. p.1) m) ≡ Map.lookup key m
  unfolding Map.lookup
  find_cap-values key [] h = refl
  find_cap-values key ((j, c) ∷ m) h = rw (h.0, find_cap-values key m h.1) refl

  reported-values :
      (id now : ℕ) (m : List (String × SysCap Float))
      → reported (
          if is_empty m
          then none
          else some (record { node_id = id; capabilities = map (λ p. p.1) m; collected_at = now }))
        ≡ map (λ p. p.1) m
  reported-values id now [] = refl
  reported-values id now (p ∷ m) = refl

  cap_map-IsKeyed : (p : ℕ × CachedNodeData Float) → IsData p → All IsKeyed (cap_map p.1)
  unfolding cap_map
  cap_map-IsKeyed p h =
      insert_entries-IsKeyed p.1.syscap_custom (insert_caps (system_caps p.1) []) h.keyed
        (insert_caps-IsKeyed (system_caps p.1) [] tt)

  lookup-cap_map :
      (p : ℕ × CachedNodeData Float) (key : String)
      → IsData p
      → Map.lookup key (cap_map p.1) ≡ effective key (some p.1)
  unfolding cap_map Map.lookup
  lookup-cap_map p key h =
      rw
        (
          lookup-insert_entries key p.1.syscap_custom (insert_caps (system_caps p.1) []) h.unique,
          lookup-insert_caps key (system_caps p.1) [],
          or_else-none (latest key (system_caps p.1)),
        )
        refl

  get_syscap-effective :
      (s : NodeStorage Float) (id now : ℕ) (key : String)
      → IsWf s
      → find_cap key (reported (get_syscap s id now)) ≡ effective key (Map.lookup id s.nodes)
  unfolding get_syscap
  get_syscap-effective s id now key h = elim (Option-cases (Map.lookup id s.nodes)) [
    | inl q ↦ rw (h.healthy, q) refl
    | inr (d, q) ↦
        let kept : IsData (id, d) = Map.lookup-All IsData id s.nodes h.entries q in
        rw
          (
            h.healthy,
            q,
            reported-values id now (cap_map d),
            find_cap-values key (cap_map d) (cap_map-IsKeyed (id, d) kept),
            lookup-cap_map (id, d) key kept,
          )
          refl
  ]

  keep-IsWf :
      (s : NodeStorage Float) (id : ℕ) (f : CachedNodeData Float → CachedNodeData Float)
      → ((j : ℕ) (d : CachedNodeData Float) → IsData (j, d) → IsData (j, f d))
      → IsWf s
      → IsWf (update_node s id f).0
  unfolding update_node
  keep-IsWf s id f keep h = rw h.healthy (elim (Bool-cases (Map.contains_key id s.nodes)) [
    | inl t ↦
        rw t
          (record { healthy = refl; entries = Map.adjust-All IsData id f s.nodes keep h.entries })
    | inr t ↦ rw t (record { healthy = refl; entries = h.entries })
  ])

-- The calls that write to the store.
pub data NodeCall (Float : Type 0) : Type 0 where
  upserts : Node → NodeCall Float
  updates_sysinfo : ℕ → NodeSysInfo Float → NodeCall Float
  updates_syscap_system : ℕ → NodeSysCap Float → NodeCall Float
  sets_custom : ℕ → List (SysCap Float) → NodeCall Float
  removes_custom : ℕ → List String → NodeCall Float
  clears_custom : ℕ → NodeCall Float

module _ {Float : Type 0} where
  abbrev pub step : NodeStorage Float → NodeCall Float → NodeStorage Float
  step s (upserts n) = upsert_node s n
  step s (updates_sysinfo id i) = (update_sysinfo s id i).0
  step s (updates_syscap_system id c) = (update_syscap_system s id c).0
  step s (sets_custom id caps) = (set_custom_syscap s id caps).0
  step s (removes_custom id keys) = (remove_custom_syscap s id keys).0
  step s (clears_custom id) = (clear_custom_syscap s id).0

  abbrev pub run : NodeStorage Float → List (NodeCall Float) → NodeStorage Float
  run s [] = s
  run s (c ∷ cs) = run (step s c) cs

  step-IsWf : (s : NodeStorage Float) (c : NodeCall Float) → IsWf s → IsWf (step s c)
  unfolding upsert_node update_sysinfo update_syscap_system set_custom_syscap remove_custom_syscap
      clear_custom_syscap
  step-IsWf s (upserts n) h = rw h.healthy (record {
    healthy = refl;
    entries = Map.insert-All IsData n.id _ s.nodes (record { unique = tt; keyed = tt }) h.entries;
  })
  step-IsWf s (updates_sysinfo id i) h =
      keep-IsWf s id _ (λ j d k. record { unique = k.unique; keyed = k.keyed }) h
  step-IsWf s (updates_syscap_system id c) h =
      keep-IsWf s id _ (λ j d k. record { unique = k.unique; keyed = k.keyed }) h
  step-IsWf s (sets_custom id caps) h =
      keep-IsWf s id _
        (λ j d k. record {
          unique = insert_caps-UniqueKeys caps d.syscap_custom k.unique;
          keyed = insert_caps-IsKeyed caps d.syscap_custom k.keyed;
        })
        h
  step-IsWf s (removes_custom id keys) h =
      keep-IsWf s id _
        (λ j d k. record {
          unique = remove_keys-UniqueKeys keys d.syscap_custom k.unique;
          keyed = remove_keys-IsKeyed keys d.syscap_custom k.keyed;
        })
        h
  step-IsWf s (clears_custom id) h =
      keep-IsWf s id _ (λ j d k. record { unique = tt; keyed = tt }) h

  run-IsWf : (s : NodeStorage Float) (cs : List (NodeCall Float)) → IsWf s → IsWf (run s cs)
  run-IsWf s [] h = h
  run-IsWf s (c ∷ cs) h = run-IsWf (step s c) cs (step-IsWf s c h)

  -- After any history of calls on an empty store, the capabilities that a node reports have under
  -- each key the custom capability, if there is one, and else the last one of the system's with the
  -- key; none are reported of a node that is not registered.
  pub get_syscap-run :
      (calls : List (NodeCall Float)) (id now : ℕ) (key : String)
      → find_cap key (reported (get_syscap (run empty_storage calls) id now))
        ≡ effective key (Map.lookup id (run empty_storage calls).nodes)
  get_syscap-run calls id now key =
      get_syscap-effective (run empty_storage calls) id now key
        (run-IsWf empty_storage calls (record { healthy = refl; entries = tt }))
