-- ===== src/Manager/Services.antt =====
-- Which endpoint pick_service_round_robin chooses for a service.
use hyperspot.Common.{
  In-append_split, In-append_left, In-append_right, In-nil_of_is_empty, ==→≡, subst, String, true,
  none, some, List, [], ◌∷◌, ◌≡◌, refl, inl, inr, ◌⊎◌, ◌==◌, string_key, In, is_empty, arith,
  Bool-cases, Option-cases,
}
use hyperspot.Common.Map
use hyperspot.Common.Map.{UniqueKeys}
use hyperspot.Manager.{
  ModuleInstance, ModuleManager, Endpoint, is_pickable, instances_of, pick_service_round_robin,
  Offer, offers, offers_of,
}
use hyperspot.Manager.Invariant.{IsWf}
use hyperspot.Manager.Rotation.{choose_total, In-listed}

-- An offer of one module's instances is an instance that is fit and has the service.
abbrev pub IsOffer : String → String → List ModuleInstance → Offer → Type 0
IsOffer service name vec o =
    (name ≡ o.0)
    × In o.1 vec
    × (Map.lookup service o.1.grpc_services ≡ some o.2)
    × (is_pickable o.1.inner.state ≡ true)

offer_here :
    (service name : String) (i : ModuleInstance) (is : List ModuleInstance) (ep : Endpoint)
    (o : Offer)
    → Map.lookup service i.grpc_services ≡ some ep
    → is_pickable i.inner.state ≡ true
    → ◌≡◌ {A = Offer} (name, i, ep) o
    → IsOffer service name (i ∷ is) o
offer_here service name i is ep o e t q =
    subst (IsOffer service name (i ∷ is)) q (refl, inl refl, e, t)

offer_later :
    (service name : String) (i : ModuleInstance) (is : List ModuleInstance) (o : Offer)
    → IsOffer service name is o
    → IsOffer service name (i ∷ is) o
offer_later service name i is o (n, member, l, t) = (n, inr member, l, t)

offers_of_sound :
    (service name : String) (vec : List ModuleInstance) (o : Offer)
    → In o (offers_of service name vec)
    → IsOffer service name vec o
unfolding offers_of
offers_of_sound service name [] o h = absurd h
offers_of_sound service name (i ∷ is) o h =
    let later = λ (r : In o (offers_of service name is)).
      offer_later service name i is o (offers_of_sound service name is o r) in
    elim (Option-cases (Map.lookup service i.grpc_services)) [
      | inl e ↦ later (rw (e, offers_of) at h)
      | inr (ep, e) ↦ elim (Bool-cases (is_pickable i.inner.state)) [
        | inl t ↦ elim (rw (e, offers_of, t) at h) [
          | inl q ↦ offer_here service name i is ep o e t q
          | inr r ↦ later r
        ]
        | inr t ↦ later (rw (e, offers_of, t) at h)
      ]
    ]

offers_of_complete :
    (service name : String) (vec : List ModuleInstance) (i : ModuleInstance) (ep : Endpoint)
    → In i vec
    → Map.lookup service i.grpc_services ≡ some ep
    → is_pickable i.inner.state ≡ true
    → In (name, i, ep) (offers_of service name vec)
unfolding offers_of
offers_of_complete service name [] i ep h l f = absurd h
offers_of_complete service name (x ∷ xs) i ep (inl e) l f =
    let l' : Map.lookup service x.grpc_services ≡ some ep = rw e l in
    let f' : is_pickable x.inner.state ≡ true = rw e f in rw (l', offers_of, f') (inl (rw e))
offers_of_complete service name (x ∷ xs) i ep (inr h) l f =
    let rest = offers_of_complete service name xs i ep h l f in
    elim (Option-cases (Map.lookup service x.grpc_services)) [
      | inl e ↦ rw (e, offers_of) rest
      | inr (q, e) ↦ elim (Bool-cases (is_pickable x.inner.state)) [
        | inl t ↦ rw (e, offers_of, t) (inr rest)
        | inr t ↦ rw (e, offers_of, t) rest
      ]
    ]

-- The module of an offer has the instance under its name.
offers_sound :
    (service : String) (es : List (String × List ModuleInstance)) (o : Offer)
    → UniqueKeys es
    → In o (offers service es)
    → (vec : List ModuleInstance) × (Map.lookup o.0 es ≡ some vec) × IsOffer service o.0 vec o
unfolding offers
offers_sound service [] o u h = absurd h
offers_sound service ((j, v) ∷ es) o u h =
    elim (In-append_split o (offers_of service j v) (offers service es) h) [
      | inl l ↦
          let f = offers_of_sound service j v o l in
          (v, Map.lookup-head j o.0 v es f.0, (refl, f.1, f.2, f.3))
      | inr r ↦
          let (vec, e, f) = offers_sound service es o u.1 r in
          (vec, Map.lookup-skip j o.0 v vec es u.0 e, f)
    ]

offers_complete :
    (service name : String) (es : List (String × List ModuleInstance)) (vec : List ModuleInstance)
    (i : ModuleInstance) (ep : Endpoint)
    → Map.lookup name es ≡ some vec
    → In i vec
    → Map.lookup service i.grpc_services ≡ some ep
    → is_pickable i.inner.state ≡ true
    → In (name, i, ep) (offers service es)
unfolding offers Map.lookup
offers_complete service name [] vec i ep h member l f = cc
offers_complete service name ((j, v) ∷ es) vec i ep h member l f = elim (Bool-cases (j == name)) [
  | inl t ↦
      let same : v ≡ vec = ground arith in
      In-append_left (name, i, ep) (offers_of service j v) (offers service es)
        (rw (==→≡ j name t) (offers_of_complete service name v i ep (rw same member) l f))
  | inr t ↦
      In-append_right _ (offers_of service j v) _
        (offers_complete service name es vec i ep (rw t at h) member l f)
]

-- In a well-formed directory, a pick for a service answers `none` exactly where no healthy or ready
-- instance of any module has the service. Otherwise it answers one that has, with the module's name
-- and the endpoint that this instance gives for the service.
pub pick_service_result :
    (m : ModuleManager) (service : String)
    → IsWf m
    → (((pick_service_round_robin m service).1 ≡ none)
        × ((name : String) (i : ModuleInstance) (ep : Endpoint)
            → In i (instances_of m name)
            → Map.lookup service i.grpc_services ≡ some ep
            → ¬ (is_pickable i.inner.state ≡ true)))
      ⊎ ((o : Offer) × ((pick_service_round_robin m service).1 ≡ some o)
          × In o.1 (instances_of m o.0)
          × (Map.lookup service o.1.grpc_services ≡ some o.2)
          × (is_pickable o.1.inner.state ≡ true))
unfolding pick_service_round_robin
pick_service_result m service w = elim (Bool-cases (is_empty (offers service m.inner))) [
  | inl t ↦ inl (
    rw t,
    λ name i ep h l f.
        let (vec, e, member) = In-listed m name i h in
        In-nil_of_is_empty _ _ t (offers_complete service name m.inner vec i ep e member l f),
  )
  | inr t ↦
      let (o, chosen, member) =
        choose_total m service (offers service m.inner) (λ e. ground arith) in
      let (vec, e, f) = offers_sound service m.inner o w.keys member in
      inr (o, rw t chosen, unfold instances_of in rw e f.1, f.2, f.3)
]
