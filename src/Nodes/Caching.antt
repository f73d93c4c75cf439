-- ===== src/Nodes/Caching.antt =====
-- service.rs: the system information is collected once and kept.
use hyperspot.Common.{
  ℕ, ◌≡◌, refl, ap, ◌⊎◌, inl, inr, String, true, false, none, some, List, [], ◌∷◌, ◌==◌, ==_refl,
  nat_key, Bool-cases, Option-cases,
}
use hyperspot.Common.Map
use hyperspot.Nodes.{
  Result, ok, err, NodeSysInfo, CachedNodeData, NodeStorage, NodeInfoError, node_not_found,
  update_node, update_sysinfo, get_node, get_sysinfo,
}
use hyperspot.Nodes.Service.{domain_error, get_node_sysinfo}

lookup-contains_key :
    {V : Type 0} (k : ℕ) (m : List (ℕ × V)) {v : V}
    → Map.lookup k m ≡ some v
    → Map.contains_key k m ≡ true
unfolding Map.lookup Map.contains_key
lookup-contains_key k [] h = cc
lookup-contains_key k ((j, w) ∷ m) h = elim (Bool-cases (j == k)) [
  | inl t ↦ rw t refl
  | inr t ↦ rw t (lookup-contains_key k m (rw t at h))
]

module _ {Float : Type 0} where
  -- A node that the store can give.
  pub record IsKnown (s : NodeStorage Float) (id : ℕ) (d : CachedNodeData Float) : Type 0 where
    pub healthy : s.poisoned ≡ false
    pub stands : Map.lookup id s.nodes ≡ some d

  pub update_node-IsKnown :
      (s : NodeStorage Float) (id : ℕ) (d : CachedNodeData Float)
      (f : CachedNodeData Float → CachedNodeData Float)
      → IsKnown s id d
      → IsKnown (update_node s id f).0 id (f d)
  unfolding update_node
  update_node-IsKnown s id d f h =
      rw (h.healthy, lookup-contains_key id s.nodes h.stands)
        (record {
          healthy = refl;
          stands = rw (Map.lookup-adjust id id f s.nodes, ==_refl id, h.stands) refl;
        })

  -- Asked for any node, the store either knows it or has none to give.
  pub get_node-cases :
      (s : NodeStorage Float) (id : ℕ)
      → (get_node s id ≡ none) ⊎ ((d : CachedNodeData Float) × IsKnown s id d)
  unfolding get_node
  get_node-cases s id = elim (Bool-cases s.poisoned) [
    | inl p ↦ inl (rw p refl)
    | inr p ↦ elim (Option-cases (Map.lookup id s.nodes)) [
      | inl q ↦ inl (rw (p, q) refl)
      | inr (d, q) ↦ inr (d, record { healthy = p; stands = q })
    ]
  ]

  pub get_node-IsKnown :
      (s : NodeStorage Float) (id : ℕ) (d : CachedNodeData Float)
      → IsKnown s id d
      → get_node s id ≡ some d.node
  unfolding get_node
  get_node-IsKnown s id d h = rw (h.healthy, h.stands) refl

  get_sysinfo-IsKnown :
      (s : NodeStorage Float) (id : ℕ) (d : CachedNodeData Float)
      → IsKnown s id d
      → get_sysinfo s id ≡ d.sysinfo
  unfolding get_sysinfo
  get_sysinfo-IsKnown s id d h = rw (h.healthy, h.stands) refl

  get_node_sysinfo-cached :
      (text : String → String) (s : NodeStorage Float) (id : ℕ) (d : CachedNodeData Float)
      (collected : Result NodeInfoError (NodeSysInfo Float)) {i : NodeSysInfo Float}
      → IsKnown s id d
      → d.sysinfo ≡ some i
      → get_node_sysinfo text s id collected ≡ (s, ok i)
  unfolding get_node_sysinfo
  get_node_sysinfo-cached text s id d collected h q =
      rw (get_node_sysinfo, get_node-IsKnown s id d h, get_sysinfo-IsKnown s id d h, q) refl

  get_node_sysinfo-unknown :
      (text : String → String) (s : NodeStorage Float) (id : ℕ)
      (collected : Result NodeInfoError (NodeSysInfo Float))
      → get_node s id ≡ none
      → get_node_sysinfo text s id collected ≡ (s, err (node_not_found id))
  unfolding get_node_sysinfo
  get_node_sysinfo-unknown text s id collected q = rw (get_node_sysinfo, q) refl

  get_node_sysinfo-fresh :
      (text : String → String) (s : NodeStorage Float) (id : ℕ) (d : CachedNodeData Float)
      (collected : Result NodeInfoError (NodeSysInfo Float))
      → IsKnown s id d
      → d.sysinfo ≡ none
      → get_node_sysinfo text s id collected ≡ (elim collected [
        | err e ↦ (s, err (domain_error text e))
        | ok i ↦ ((update_sysinfo s id i).0, ok i)
      ])
  unfolding get_node_sysinfo
  get_node_sysinfo-fresh text s id d collected k q =
      rw (get_node_sysinfo, get_node-IsKnown s id d k, get_sysinfo-IsKnown s id d k, q) refl

  again-fresh :
      (text : String → String) (s : NodeStorage Float) (id : ℕ) (d : CachedNodeData Float)
      (collected collected' : Result NodeInfoError (NodeSysInfo Float)) {i : NodeSysInfo Float}
      → IsKnown s id d
      → d.sysinfo ≡ none
      → (get_node_sysinfo text s id collected).1 ≡ ok i
      → get_node_sysinfo text (get_node_sysinfo text s id collected).0 id collected'
        ≡ ((get_node_sysinfo text s id collected).0, ok i)
  unfolding update_sysinfo
  again-fresh text s id d (err e) collected' k q h =
      let no = rw (get_node_sysinfo-fresh text s id d (err e) k q) at h in cc
  again-fresh text s id d (ok j) collected' {i} k q h =
      let same : ok j ≡ ok i = rw (get_node_sysinfo-fresh text s id d (ok j) k q) at h in
      rw (get_node_sysinfo-fresh text s id d (ok j) k q) (
        get_node_sysinfo-cached text _ id _ collected' (update_node-IsKnown s id d _ k)
          (ap some cc))

  -- What get_node_sysinfo answered once it answers from then on, with the store left as it is,
  -- whatever the collector would answer.
  pub get_node_sysinfo_again :
      (text : String → String) (s : NodeStorage Float) (id : ℕ)
      (collected collected' : Result NodeInfoError (NodeSysInfo Float)) {i : NodeSysInfo Float}
      → (get_node_sysinfo text s id collected).1 ≡ ok i
      → get_node_sysinfo text (get_node_sysinfo text s id collected).0 id collected'
        ≡ ((get_node_sysinfo text s id collected).0, ok i)
  get_node_sysinfo_again text s id collected collected' {i} h = elim (get_node-cases s id) [
    | inl q ↦ let no = rw (get_node_sysinfo-unknown text s id collected q) at h in cc
    | inr (d, k) ↦ elim (Option-cases d.sysinfo) [
      | inl q ↦ again-fresh text s id d collected collected' k q h
      | inr (j, q) ↦
          let same : ok j ≡ ok i = rw (get_node_sysinfo-cached text s id d collected k q) at h in
          rw (get_node_sysinfo-cached text s id d collected k q)
            (get_node_sysinfo-cached text s id d collected' k cc)
    ]
  ]
