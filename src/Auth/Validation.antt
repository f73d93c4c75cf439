-- ===== src/Auth/Validation.antt =====
-- The claims that `validate_claims` accepts.
use hyperspot.Common.{
  ℕ, ◌+◌, ◌≤◌, ◌≡◌, refl, subst, ◌⊎◌, inl, inr, ◌↔◌, Bool, true, false, not, ◌&&◌, Option, none,
  some, List, [], ◌∷◌, any, is_empty, contains, In, Str, text_key, nat_key, ◌==◌, ==→≡, Bool-cases,
  if◌then◌else◌, arith, any-In, In-any,
}
use hyperspot.Auth.{
  Result, ok, err, Claims, ValidationConfig, is_expired_at, is_early_at, validate_claims,
}

-- What a configuration accepts, clause by clause.
pub record IsAccepted (config : ValidationConfig) (now now' : ℕ) (claims : Claims) : Type 0 where
  pub issuer : (config.allowed_issuers ≡ []) ⊎ In claims.issuer config.allowed_issuers
  pub audience :
      (config.allowed_audiences ≡ [])
      ⊎ ((aud : Str) × In aud claims.audiences × In aud config.allowed_audiences)
  pub not_expired : (exp : ℕ) → claims.expires_at ≡ some exp → now ≤ exp + config.leeway
  pub not_early : (nbf : ℕ) → claims.not_before ≡ some nbf → nbf ≤ now' + config.leeway
  pub subject : config.require_uuid_subject ≡ true → ¬ (claims.sub ≡ 0)
  pub no_nil_tenant : config.require_uuid_tenants ≡ true → ¬ In 0 claims.tenants

contains-In : (a : Str) (xs : List Str) → contains a xs ≡ true → In a xs
contains-In a [] h = cc
contains-In a (x ∷ xs) h = elim (Bool-cases (x == a)) [
  | inl e ↦ inl (==→≡ x a e)
  | inr e ↦ inr (contains-In a xs (rw e at h))
]

In-contains : (a : Str) (xs : List Str) → In a xs → contains a xs ≡ true
In-contains a [] i = absurd i
In-contains a (x ∷ xs) (inl e) = rw ((text_key.agrees_iff x a).1 e) refl
In-contains a (x ∷ xs) (inr i) = elim (Bool-cases (x == a)) [
  | inl e ↦ rw e refl
  | inr e ↦ rw e (In-contains a xs i)
]

-- A test that no configured list, or the list, satisfies.
not_listed_iff :
    {P : Type 0} (xs : List Str) (b : Bool)
    → (b ≡ true) ↔ P
    → (not (is_empty xs) && not b ≡ false) ↔ ((xs ≡ []) ⊎ P)
not_listed_iff [] b h = (λ e. inl refl, λ e. refl)
not_listed_iff (x ∷ xs) true h = (λ e. inr (h.0 refl), λ e. refl)
not_listed_iff (x ∷ xs) false h =
    (λ e. cc, elim [ inl e ↦ cc | inr p ↦ let no : false ≡ true = h.1 p in cc ])

shared_iff :
    (auds allowed : List Str)
    → (any (λ aud. contains aud allowed) auds ≡ true) ↔ ((aud : Str) × In aud auds × In aud allowed)
shared_iff auds allowed = (
  λ h.
      let (aud, i, c) = any-In (λ aud. contains aud allowed) auds h in
      (aud, i, contains-In aud allowed c),
  λ (aud, i, j). In-any (λ aud. contains aud allowed) auds i (In-contains aud allowed j),
)

expired_iff :
    (config : ValidationConfig) (now : ℕ) (o : Option ℕ)
    → (is_expired_at config now o ≡ false) ↔ ((exp : ℕ) → o ≡ some exp → now ≤ exp + config.leeway)
unfolding is_expired_at
expired_iff config now none = (λ h exp e. cc, λ h. refl)
expired_iff config now (some exp) = (
  λ h exp' e.
      let same : exp ≡ exp' = cc in subst (λ x. now ≤ x + config.leeway) same (ground arith),
  λ h. let bound = h exp refl in ground arith,
)

early_iff :
    (config : ValidationConfig) (now : ℕ) (o : Option ℕ)
    → (is_early_at config now o ≡ false) ↔ ((nbf : ℕ) → o ≡ some nbf → nbf ≤ now + config.leeway)
unfolding is_early_at
early_iff config now none = (λ h nbf e. cc, λ h. refl)
early_iff config now (some nbf) = (
  λ h nbf' e.
      let same : nbf ≡ nbf' = cc in subst (λ x. x ≤ now + config.leeway) same (ground arith),
  λ h. let bound = h nbf refl in ground arith,
)

-- A test that counts only where the configuration asks for it.
asked_iff :
    {P : Type 0} (asked b : Bool) → (b ≡ true) ↔ P → (asked && b ≡ false) ↔ (asked ≡ true → ¬ P)
asked_iff false b h = (λ e q p. cc, λ e. refl)
asked_iff true true h = (λ e q p. cc, λ e. absurd (e refl (h.0 refl)))
asked_iff true false h = (λ e q p. let no : false ≡ true = h.1 p in cc, λ e. refl)

nil_tenant_iff : (ts : List ℕ) → (any (λ t. t == 0) ts ≡ true) ↔ In 0 ts
nil_tenant_iff ts = (
  λ h. let (t, i, e) = any-In (λ t. t == 0) ts h in subst (λ x. In x ts) (==→≡ t 0 e) i,
  λ i. In-any (λ t. t == 0) ts i refl,
)

guard_iff :
    {E : Type 0} (b : Bool) (e : E) (r : Result E (Unit {0}))
    → ((if b then err e else r) ≡ ok tt) ↔ ((b ≡ false) × (r ≡ ok tt))
guard_iff true e r = (λ h. cc, λ h. cc)
guard_iff false e r = (λ h. (refl, h), λ h. h.1)

-- Claims are accepted exactly if: the issuer and one of the audiences are configured, where any are;
-- the expiration and the not-before time, moved apart by the leeway, enclose the moments at which
-- they are tested; and, where the configuration asks for it, the subject and the tenants are not the
-- nil UUID.
pub validate_claims_iff :
    (now now' : ℕ) (claims : Claims) (config : ValidationConfig)
    → (validate_claims now now' claims config ≡ ok tt) ↔ IsAccepted config now now' claims
unfolding validate_claims
validate_claims_iff now now' claims config =
    let issuer =
      not_listed_iff config.allowed_issuers (contains claims.issuer config.allowed_issuers) (
        contains-In claims.issuer config.allowed_issuers,
        In-contains claims.issuer config.allowed_issuers,
      ) in
    let audience =
      not_listed_iff config.allowed_audiences
        (any (λ aud. contains aud config.allowed_audiences) claims.audiences)
        (shared_iff claims.audiences config.allowed_audiences) in
    let exp = expired_iff config now claims.expires_at in
    let nbf = early_iff config now' claims.not_before in
    let subject =
      asked_iff config.require_uuid_subject (claims.sub == 0) (nat_key.agrees_iff claims.sub 0) in
    let tenants =
      asked_iff config.require_uuid_tenants (any (λ t. t == 0) claims.tenants)
        (nil_tenant_iff claims.tenants) in
    (
      λ h.
          let (a, h1) = (guard_iff _ _ _).0 h in
          let (b, h2) = (guard_iff _ _ _).0 h1 in
          let (c, h3) = (guard_iff _ _ _).0 h2 in
          let (d, h4) = (guard_iff _ _ _).0 h3 in
          let (e, h5) = (guard_iff _ _ _).0 h4 in
          let (f, h6) = (guard_iff _ _ _).0 h5 in
          record {
            issuer = issuer.0 a;
            audience = audience.0 b;
            not_expired = exp.0 c;
            not_early = nbf.0 d;
            subject = subject.0 e;
            no_nil_tenant = tenants.0 f;
          },
      λ w.
          rw
            (
              issuer.1 w.issuer,
              audience.1 w.audience,
              exp.1 w.not_expired,
              nbf.1 w.not_early,
              subject.1 w.subject,
              tenants.1 w.no_nil_tenant,
            )
            refl,
    )
