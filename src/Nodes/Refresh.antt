-- ===== src/Nodes/Refresh.antt =====
-- service.rs: the system's capabilities are collected again when they are out of date.
use hyperspot.Common.{
  ℕ, ◌≡◌, refl, ◌⊎◌, inl, inr, String, Bool, true, false, none, some, List, [], ◌∷◌, map, nat_key,
  is_empty, All, Bool-cases, Option-cases, filter,
}
use hyperspot.Nodes.{
  Result, ok, err, SysCap, NodeSysCap, CachedNodeData, NodeStorage, NodeInfoError, node_not_found,
  update_syscap_system, system_caps, get_node, cache_is_expired, get_expired_syscap_keys,
  get_syscap,
}
use hyperspot.Nodes.Service.{domain_error, get_node_syscap, merged, needs_refresh}
use hyperspot.Nodes.Caching.{IsKnown, get_node-cases, get_node-IsKnown, update_node-IsKnown}

no_key : {A B : Type 0} (f : A → B) (xs : List A) → is_empty (map f xs) ≡ true → xs ≡ []
no_key f [] h = refl
no_key f (x ∷ xs) h = cc

module _ {Float : Type 0} where
  none_expired :
      (now : ℕ) (cs : List (SysCap Float))
      → filter (λ p. cache_is_expired p now) cs ≡ []
      → All (λ p. cache_is_expired p now ≡ false) cs
  none_expired now [] h = tt
  none_expired now (c ∷ cs) h = elim (Bool-cases (cache_is_expired c now)) [
    | inl t ↦ let e : c ∷ filter (λ p. cache_is_expired p now) cs ≡ [] = rw t at h in cc
    | inr t ↦ (t, none_expired now cs (rw t at h))
  ]

  get_expired_syscap_keys-IsKnown :
      (s : NodeStorage Float) (id now : ℕ) (d : CachedNodeData Float)
      → IsKnown s id d
      → is_empty (get_expired_syscap_keys s id now) ≡ true
      → All (λ p. cache_is_expired p now ≡ false) (system_caps d)
  unfolding get_expired_syscap_keys
  get_expired_syscap_keys-IsKnown s id now d k h =
      none_expired now (system_caps d) (no_key (λ p. p.key) _ (rw (k.healthy, k.stands) at h))

  needs_refresh-IsKnown :
      (s : NodeStorage Float) (id now : ℕ) (force : Bool) (d : CachedNodeData Float)
      → IsKnown s id d
      → needs_refresh s id force now ≡ false
      → (force ≡ false) × All (λ p. cache_is_expired p now ≡ false) (system_caps d)
  unfolding needs_refresh
  needs_refresh-IsKnown s id now true d k h = cc
  needs_refresh-IsKnown s id now false d k h =
      elim (Bool-cases (is_empty (get_expired_syscap_keys s id now))) [
        | inl t ↦ (refl, get_expired_syscap_keys-IsKnown s id now d k t)
        | inr t ↦ let no = rw t at h in cc
      ]

  -- The answer is the store's merge, made without a change to the store.
  pub record IsMerged (s s' : NodeStorage Float) (id now : ℕ) (caps : NodeSysCap Float)
      : Type 0 where
    pub left : s' ≡ s
    pub merge : get_syscap s id now ≡ some caps

  merged-IsMerged :
      (s : NodeStorage Float) (id now : ℕ) {caps : NodeSysCap Float}
      → (merged s id now).1 ≡ ok caps
      → IsMerged s (merged s id now).0 id now caps
  unfolding merged
  merged-IsMerged s id now {caps} h = elim (Option-cases (get_syscap s id now)) [
    | inl q ↦ let no = rw (merged, q) at h in cc
    | inr (c, q) ↦
        let same : ok c ≡ ok caps = rw (merged, q) at h in
        record { left = rw (merged, q) refl; merge = cc }
  ]

  get_node_syscap-unknown :
      (text : String → String) (s : NodeStorage Float) (id : ℕ) (force : Bool) (now now' : ℕ)
      (collected : Result NodeInfoError (NodeSysCap Float))
      → get_node s id ≡ none
      → get_node_syscap text s id force now now' collected ≡ (s, err (node_not_found id))
  unfolding get_node_syscap
  get_node_syscap-unknown text s id force now now' collected q = rw (get_node_syscap, q) refl

  get_node_syscap-kept :
      (text : String → String) (s : NodeStorage Float) (id : ℕ) (force : Bool) (now now' : ℕ)
      (collected : Result NodeInfoError (NodeSysCap Float)) (d : CachedNodeData Float)
      → IsKnown s id d
      → needs_refresh s id force now ≡ false
      → get_node_syscap text s id force now now' collected ≡ merged s id now'
  unfolding get_node_syscap merged
  get_node_syscap-kept text s id force now now' collected d k q =
      rw (get_node_syscap, get_node-IsKnown s id d k, q) refl

  get_node_syscap-refreshed :
      (text : String → String) (s : NodeStorage Float) (id : ℕ) (force : Bool) (now now' : ℕ)
      (collected : Result NodeInfoError (NodeSysCap Float)) (d : CachedNodeData Float)
      → IsKnown s id d
      → needs_refresh s id force now ≡ true
      → get_node_syscap text s id force now now' collected ≡ (elim collected [
        | err e ↦ (s, err (domain_error text e))
        | ok c ↦ merged (update_syscap_system s id c).0 id now'
      ])
  unfolding get_node_syscap
  get_node_syscap-refreshed text s id force now now' collected d k q =
      rw (get_node_syscap, get_node-IsKnown s id d k, q) refl

  -- The capabilities of the system that stand in the store are those just collected, or the store is
  -- as it was, none of them has expired and no refresh was asked for.
  abbrev pub IsFresh :
      NodeStorage Float
      → NodeStorage Float
      → CachedNodeData Float
      → Bool
      → ℕ
      → Result NodeInfoError (NodeSysCap Float)
      → Type 0
  IsFresh s s' d force now collected =
      ((c : NodeSysCap Float) × (collected ≡ ok c) × (d.syscap_system ≡ some c))
      ⊎ ((s' ≡ s) × (force ≡ false) × All (λ p. cache_is_expired p now ≡ false) (system_caps d))

  pub record Answers (s : NodeStorage Float) (id : ℕ) (force : Bool) (now now' : ℕ)
      (collected : Result NodeInfoError (NodeSysCap Float)) (caps : NodeSysCap Float)
      (s' : NodeStorage Float) : Type 0 where
    pub data_after : CachedNodeData Float
    pub known : IsKnown s' id data_after
    pub merge : get_syscap s' id now' ≡ some caps
    pub fresh : IsFresh s s' data_after force now collected

  answers-refreshed :
      (text : String → String) (s : NodeStorage Float) (id : ℕ) (force : Bool) (now now' : ℕ)
      (collected : Result NodeInfoError (NodeSysCap Float)) (d : CachedNodeData Float)
      {caps : NodeSysCap Float}
      → IsKnown s id d
      → needs_refresh s id force now ≡ true
      → (get_node_syscap text s id force now now' collected).1 ≡ ok caps
      → Answers s id force now now' collected caps
          (get_node_syscap text s id force now now' collected).0
  answers-refreshed text s id force now now' (err e) d k q h =
      let no = rw (get_node_syscap-refreshed text s id force now now' (err e) d k q) at h in cc
  answers-refreshed text s id force now now' (ok c) d k q h =
      let same = get_node_syscap-refreshed text s id force now now' (ok c) d k q in
      let m = merged-IsMerged (update_syscap_system s id c).0 id now' (rw same at h) in
      rw (same, m.left)
        (record {
          data_after = record d { syscap_system = some c };
          known = unfold update_syscap_system in update_node-IsKnown s id d _ k;
          merge = m.merge;
          fresh = inl (c, refl, refl);
        })

  -- When get_node_syscap answers, the node is registered, the answer is the merge of the
  -- capabilities that the store then holds, and those of the system among them were just collected
  -- or, where no refresh was asked for, had not expired and the store is as it was.
  pub get_node_syscap-Answers :
      (text : String → String) (s : NodeStorage Float) (id : ℕ) (force : Bool) (now now' : ℕ)
      (collected : Result NodeInfoError (NodeSysCap Float)) {caps : NodeSysCap Float}
      → (get_node_syscap text s id force now now' collected).1 ≡ ok caps
      → Answers s id force now now' collected caps
          (get_node_syscap text s id force now now' collected).0
  get_node_syscap-Answers text s id force now now' collected h = elim (get_node-cases s id) [
    | inl q ↦ let no = rw (get_node_syscap-unknown text s id force now now' collected q) at h in cc
    | inr (d, k) ↦ elim (Bool-cases (needs_refresh s id force now)) [
      | inl q ↦ answers-refreshed text s id force now now' collected d k q h
      | inr q ↦
          let same = get_node_syscap-kept text s id force now now' collected d k q in
          let m = merged-IsMerged s id now' (rw same at h) in
          rw (same, m.left)
            (record {
              data_after = d;
              known = k;
              merge = m.merge;
              fresh =
                  let kept = needs_refresh-IsKnown s id now force d k q in
                  inr (refl, kept.0, kept.1);
            })
    ]
  ]
