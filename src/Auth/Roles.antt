-- ===== src/Auth/Roles.antt =====
-- Which roles grant an action on a resource.
use hyperspot.Common.{
  any-In, In-any, All-In, any, In, All, ℕ, ◌≡◌, refl, ap, ap₂, sym, subst, ◌∙◌, ◌⊎◌, inl, inr, ◌↔◌,
  true, false, Option, none, some, [], ◌∷◌, ◌++◌, length, length-append, Str, text_key, ◌==◌,
  ==_refl, ==→≡, strip_prefix, strip_suffix, under, str_beq, str_beq_refl, str_beq→≡, nat_beq,
  nat_beq_iff, Bool-cases, Option-cases, arith,
}
use hyperspot.Auth.{
  Claims, SecRequirement, star_star, any_action, any_resource, role_matches, check_role,
}

strip_prefix-some : (p s t : Str) → strip_prefix p s ≡ some t → s ≡ p ++ t
unfolding strip_prefix
strip_prefix-some [] s t h = cc
strip_prefix-some (q ∷ ps) [] t h = cc
strip_prefix-some (q ∷ ps) (c ∷ s) t h = elim (Bool-cases (nat_beq c q)) [
  | inl e ↦ ap₂ (◌∷◌) ((nat_beq_iff c q).0 e) (strip_prefix-some ps s t (rw e at h))
  | inr e ↦ let no : none ≡ some t = rw e at h in cc
]

strip_prefix-append : (p t : Str) → strip_prefix p (p ++ t) ≡ some t
unfolding strip_prefix
strip_prefix-append [] t = refl
strip_prefix-append (q ∷ ps) t = rw ((nat_beq_iff q q).1 refl) (strip_prefix-append ps t)

some-inj : {A : Type 0} {a b : A} → some a ≡ some b → a ≡ b
some-inj h = cc

under-some :
    (c : ℕ) (o : Option Str) (t : Str) → under c o ≡ some t → (u : Str) × (o ≡ some u) × (c ∷ u ≡ t)
under-some c none t h = cc
under-some c (some u) t h = (u, refl, cc)

strip_suffix-some : (p s t : Str) → strip_suffix p s ≡ some t → s ≡ t ++ p
unfolding strip_suffix
strip_suffix-some p [] t h = elim (Bool-cases (str_beq [] p)) [
  | inl e ↦ let same : [] ≡ t = some-inj (rw e at h) in str_beq→≡ [] p e ∙ ap (λ u. u ++ p) same
  | inr e ↦ let no : none ≡ some t = rw e at h in cc
]
strip_suffix-some p (c ∷ s) t h = elim (Bool-cases (str_beq (c ∷ s) p)) [
  | inl e ↦
      let same : [] ≡ t = some-inj (rw e at h) in str_beq→≡ (c ∷ s) p e ∙ ap (λ u. u ++ p) same
  | inr e ↦
      let (u, below, same) = under-some c (strip_suffix p s) t (rw e at h) in
      ap (λ l. c ∷ l) (strip_suffix-some p s u below) ∙ ap (λ v. v ++ p) same
]

strip_suffix_self : (p : Str) → strip_suffix p p ≡ some []
unfolding strip_suffix
strip_suffix_self [] = refl
strip_suffix_self (c ∷ s) = rw (str_beq_refl (c ∷ s)) refl

longer : (c : ℕ) (t p : Str) → ¬ (c ∷ (t ++ p) ≡ p)
longer c t p h = absurd (omega (arith, ap length h, length-append t p))

strip_suffix-append : (p t : Str) → strip_suffix p (t ++ p) ≡ some t
unfolding strip_suffix
strip_suffix-append p [] = strip_suffix_self p
strip_suffix-append p (c ∷ t) = elim (Bool-cases (str_beq (c ∷ (t ++ p)) p)) [
  | inl e ↦ absurd (longer c t p (str_beq→≡ (c ∷ (t ++ p)) p e))
  | inr e ↦ rw (e, strip_suffix) (ap (under c) (strip_suffix-append p t))
]

-- The text has no '*'.
abbrev pub NoStar : Str → Type 0
NoStar s = All (λ c. nat_beq c 42 ≡ false) s

NoStar-append : (s t : Str) → NoStar s → NoStar t → NoStar (s ++ t)
NoStar-append [] t h k = k
NoStar-append (c ∷ s) t h k = (h.0, NoStar-append s t h.1 k)

any_action-star : (t : Str) → ¬ NoStar (t ++ any_action)
any_action-star [] h = let no : true ≡ false = h.1.0 in cc
any_action-star (c ∷ t) h = any_action-star t h.1

any_resource-star : (a t : Str) → NoStar a → ¬ (any_resource ++ a ≡ t ++ any_action)
any_resource-star a [] h e = let no : ◌≡◌ {A = ℕ} 42 58 = cc in absurd (omega (arith, no))
any_resource-star a (c ∷ t) h e =
    let tail : 58 ∷ a ≡ t ++ any_action = cc in any_action-star t (subst NoStar tail (refl, h))

-- A role grants an action on a resource: "*:*", the resource and ":*", "*:" and the action, or the
-- resource, ':' and the action.
abbrev pub Grants : Str → Str → Str → Type 0
Grants role resource action =
    (role ≡ star_star)
    ⊎ ((role ≡ resource ++ any_action)
        ⊎ ((role ≡ any_resource ++ action) ⊎ (role ≡ resource ++ 58 ∷ action)))

role_matches-Grants : (p r a : Str) → role_matches p r a ≡ true → Grants p r a
unfolding role_matches
role_matches-Grants p r a h = elim (Bool-cases (p == star_star)) [
  | inl e ↦ inl (==→≡ p star_star e)
  | inr e ↦ elim (Option-cases (strip_suffix any_action p)) [
    | inr (t, s) ↦ inr (
        inl (
          strip_suffix-some any_action p t s
          ∙ ap (λ u. u ++ any_action) (==→≡ t r (rw (e, s) at h))))
    | inl s ↦ elim (Option-cases (strip_prefix any_resource p)) [
      | inr (b, q) ↦ inr (
          inr (
            inl (
              strip_prefix-some any_resource p b q
              ∙ ap (λ u. any_resource ++ u) (sym (==→≡ a b (rw (e, s, q) at h))))))
      | inl q ↦ inr (inr (inr (==→≡ p (r ++ 58 ∷ a) (rw (e, s, q) at h))))
    ]
  ]
]

role_matches-star : (p r a : Str) → p ≡ star_star → role_matches p r a ≡ true
unfolding role_matches
role_matches-star p r a e = rw ((text_key.agrees_iff p star_star).1 e) refl

role_matches-suffix : (r a : Str) → role_matches (r ++ any_action) r a ≡ true
unfolding role_matches
role_matches-suffix r a = elim (Bool-cases (r ++ any_action == star_star)) [
  | inl e ↦ rw e refl
  | inr e ↦ rw (e, strip_suffix-append any_action r) (==_refl r)
]

role_matches-prefix : (r a : Str) → NoStar a → role_matches (any_resource ++ a) r a ≡ true
unfolding role_matches
role_matches-prefix r a h = elim (Bool-cases (any_resource ++ a == star_star)) [
  | inl e ↦ rw e refl
  | inr e ↦ elim (Option-cases (strip_suffix any_action (any_resource ++ a))) [
    | inr (t, s) ↦
        absurd (any_resource-star a t h (strip_suffix-some any_action (any_resource ++ a) t s))
    | inl s ↦ rw (e, s, strip_prefix-append any_resource a) (==_refl a)
  ]
]

role_matches-exact : (r a : Str) → NoStar r → NoStar a → role_matches (r ++ 58 ∷ a) r a ≡ true
unfolding role_matches
role_matches-exact r a hr ha =
    let clean : NoStar (r ++ 58 ∷ a) = NoStar-append r (58 ∷ a) hr (refl, ha) in
    elim (Bool-cases (r ++ 58 ∷ a == star_star)) [
      | inl e ↦ rw e refl
      | inr e ↦ elim (Option-cases (strip_suffix any_action (r ++ 58 ∷ a))) [
        | inr (t, s) ↦ absurd (
            any_action-star t (subst NoStar (strip_suffix-some any_action (r ++ 58 ∷ a) t s) clean))
        | inl s ↦ elim (Option-cases (strip_prefix any_resource (r ++ 58 ∷ a))) [
          | inr (b, q) ↦
              let starred = subst NoStar (strip_prefix-some any_resource (r ++ 58 ∷ a) b q) clean in
              let no : true ≡ false = starred.0 in cc
          | inl q ↦ rw (e, s, q) (==_refl (r ++ 58 ∷ a))
        ]
      ]
    ]

Grants-role_matches : (p r a : Str) → NoStar r → NoStar a → Grants p r a → role_matches p r a ≡ true
Grants-role_matches p r a hr ha (inl e) = role_matches-star p r a e
Grants-role_matches p r a hr ha (inr (inl e)) =
    subst (λ q. role_matches q r a ≡ true) (sym e) (role_matches-suffix r a)
Grants-role_matches p r a hr ha (inr (inr (inl e))) =
    subst (λ q. role_matches q r a ≡ true) (sym e) (role_matches-prefix r a ha)
Grants-role_matches p r a hr ha (inr (inr (inr e))) =
    subst (λ q. role_matches q r a ≡ true) (sym e) (role_matches-exact r a hr ha)

-- The role check passes exactly where one of the roles grants one of the required actions on the
-- resource; for a resource and actions without a '*'.
pub check_role_iff :
    (claims : Claims) (r : SecRequirement)
    → NoStar r.resource
    → All NoStar r.actions
    → (check_role claims r ≡ true) ↔ (
        (action : Str) × In action r.actions
        × (role : Str) × In role claims.roles
        × Grants role r.resource action)
unfolding check_role
check_role_iff claims r hr has = (
  λ h.
      let (action, listed, matched) =
        any-In (λ action. any (λ role. role_matches role r.resource action) claims.roles) r.actions
          h in
      let (role, held, fits) =
        any-In (λ role. role_matches role r.resource action) claims.roles matched in
      (action, listed, role, held, role_matches-Grants role r.resource action fits),
  λ (action, listed, role, held, grants).
      In-any (λ action. any (λ role. role_matches role r.resource action) claims.roles) r.actions
        listed
        (In-any (λ role. role_matches role r.resource action) claims.roles held
          (Grants-role_matches role r.resource action hr (All-In NoStar r.actions has listed)
            grants)),
)
