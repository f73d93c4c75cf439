-- ===== src/Auth/Requests.antt =====
-- Which requests the middleware lets through, and with which context.
use hyperspot.Common.{
  ◌≡◌, refl, sym, subst, ◌∙◌, ◌⊎◌, inl, inr, Bool, true, false, not, ◌&&◌, ◌||◌, Option, none, some,
  Str, text_key, Bool-cases,
}
use hyperspot.Common.Map
use hyperspot.Auth.{
  after_check, validated, validated_optional, Result, ok, err, Claims, SecRequirement,
  AuthRequirement, not_required, required, optional, AuthError, check, check_role, Request,
  HttpNames, passes, with_anonymous, with_claims, authorize, extract_bearer_token,
  is_preflight_request, call, call_policy, call_required, call_optional, IngressRoutePolicy,
  resolve, found, is_public, is_some, forbidden,
}

passes-inj : {r s : Request} → passes r ≡ passes s → r ≡ s
passes-inj h = cc

check-ok :
    (claims : Claims) (r : SecRequirement) → check claims r ≡ ok tt → check_role claims r ≡ true
unfolding check
check-ok claims r h = elim (Bool-cases (check_role claims r)) [
  | inl e ↦ e
  | inr e ↦ let no : err forbidden ≡ ok tt = rw e at h in cc
]

module _ (names : HttpNames) (validate_and_parse : Str → Result AuthError Claims) where
  -- The request carries a token that the validator accepts, its claims grant what the route requires, and
  -- the claims and their context are what the handler sees.
  pub record IsAuthenticated (request : Request) (requirement : AuthRequirement)
      (request' : Request) : Type 0 where
    pub token : Str
    pub claims : Claims
    pub presented : extract_bearer_token names request.headers ≡ some token
    pub accepted : validate_and_parse token ≡ ok claims
    pub granted :
        (r : SecRequirement) → requirement ≡ required (some r) → check_role claims r ≡ true
    pub handed : request' ≡ with_claims request claims

  abbrev pub IsAnonymous : Request → AuthRequirement → Request → Type 0
  IsAnonymous request requirement request' =
      (request' ≡ with_anonymous request)
      × ((r : Option SecRequirement) → ¬ (requirement ≡ required r))

  checked :
      (request request' : Request) (claims : Claims) (res : Result AuthError (Unit {0}))
      → after_check request claims res ≡ passes request'
      → (res ≡ ok tt) × (request' ≡ with_claims request claims)
  checked request request' claims (ok u) h = (refl, sym (passes-inj h))
  checked request request' claims (err e) h = cc

  authorized :
      (request request' : Request) (claims : Claims) (r : Option SecRequirement)
      → authorize request claims r ≡ passes request'
      → ((s : SecRequirement) → required r ≡ required (some s) → check_role claims s ≡ true)
        × (request' ≡ with_claims request claims)
  unfolding authorize
  authorized request request' claims none h = (λ s e. cc, sym (passes-inj h))
  authorized request request' claims (some r) h =
      let (allowed, handed) = checked request request' claims (check claims r) h in
      (
        λ s e.
            let same : r ≡ s = cc in
            subst (λ q. check_role claims q ≡ true) same (check-ok claims r allowed),
        handed,
      )

  validated_passes :
      (request request' : Request) (r : Option SecRequirement) (token : Str)
      (res : Result AuthError Claims)
      → extract_bearer_token names request.headers ≡ some token
      → validate_and_parse token ≡ res
      → validated request r res ≡ passes request'
      → IsAuthenticated request (required r) request'
  validated_passes request request' r token (ok claims) there says h =
      let (granted, handed) = authorized request request' claims r h in
      record {
        token = token;
        claims = claims;
        presented = there;
        accepted = says;
        granted = granted;
        handed = handed;
      }
  validated_passes request request' r token (err e) there says h = cc

  required_passes :
      (request request' : Request) (r : Option SecRequirement) (token : Option Str)
      → extract_bearer_token names request.headers ≡ token
      → call_required names validate_and_parse request r token ≡ passes request'
      → IsAuthenticated request (required r) request'
  unfolding call_required
  required_passes request request' r none there h = cc
  required_passes request request' r (some token) there h =
      validated_passes request request' r token (validate_and_parse token) there refl h

  optional_validated :
      (request request' : Request) (token : Str) (res : Result AuthError Claims)
      → extract_bearer_token names request.headers ≡ some token
      → validate_and_parse token ≡ res
      → validated_optional request res ≡ passes request'
      → IsAnonymous request optional request' ⊎ IsAuthenticated request optional request'
  optional_validated request request' token (ok claims) there says h = inr (record {
    token = token;
    claims = claims;
    presented = there;
    accepted = says;
    granted = λ r e. cc;
    handed = sym (passes-inj h);
  })
  optional_validated request request' token (err e) there says h =
      inl (sym (passes-inj h), λ r q. cc)

  optional_passes :
      (request request' : Request) (token : Option Str)
      → extract_bearer_token names request.headers ≡ token
      → call_optional names validate_and_parse request token ≡ passes request'
      → IsAnonymous request optional request' ⊎ IsAuthenticated request optional request'
  unfolding call_optional
  optional_passes request request' none there h = inl (sym (passes-inj h), λ r q. cc)
  optional_passes request request' (some token) there h =
      optional_validated request request' token (validate_and_parse token) there refl h

  policy_passes :
      (request request' : Request) (requirement : AuthRequirement)
      → call_policy names validate_and_parse request requirement ≡ passes request'
      → IsAnonymous request requirement request' ⊎ IsAuthenticated request requirement request'
  unfolding call_policy
  policy_passes request request' not_required h = inl (sym (passes-inj h), λ r e. cc)
  policy_passes request request' (required r) h =
      inr (required_passes request request' r (extract_bearer_token names request.headers) refl h)
  policy_passes request request' optional h =
      optional_passes request request' (extract_bearer_token names request.headers) refl h

  pub call_passes :
      (policy : Str → Str → AuthRequirement) (request request' : Request)
      → call names validate_and_parse policy request ≡ passes request'
      → ((is_preflight_request names request.method request.headers ≡ true) × (request' ≡ request))
        ⊎ (IsAnonymous request (policy request.method request.path) request'
            ⊎ IsAuthenticated request (policy request.method request.path) request')
  unfolding call
  call_passes policy request request' h =
      elim (Bool-cases (is_preflight_request names request.method request.headers)) [
        | inl e ↦ inl (e, sym (passes-inj (rw e at h)))
        | inr e ↦
            inr (policy_passes request request' (policy request.method request.path) (rw e at h))
      ]

-- The ingress asks for authentication at a path: a secured route matches, or none does and the
-- configuration asks by default and no public route matches.
abbrev pub is_closed : IngressRoutePolicy → Str → Str → Bool
is_closed policy method path =
    is_some (found (Map.lookup method policy.route_matchers) path)
    || (policy.require_auth_by_default
        && not (is_public (Map.lookup method policy.public_matchers) path))

resolve-required :
    (policy : IngressRoutePolicy) (method path : Str)
    → is_closed policy method path ≡ true
    → resolve policy method path ≡ required (found (Map.lookup method policy.route_matchers) path)
unfolding resolve
resolve-required policy method path h = rw h refl

-- Behind the ingress's policy, a request that reaches the handler at a closed path and is not a CORS
-- preflight is authenticated: its token is one that the validator accepts, and if a secured route
-- matches the path, the claims hold a role that grants one of its actions.
pub closed_route :
    (names : HttpNames) (validate_and_parse : Str → Result AuthError Claims)
    (policy : IngressRoutePolicy) (request request' : Request)
    → is_closed policy request.method request.path ≡ true
    → is_preflight_request names request.method request.headers ≡ false
    → call names validate_and_parse (resolve policy) request ≡ passes request'
    → IsAuthenticated names validate_and_parse request
        (required (found (Map.lookup request.method policy.route_matchers) request.path))
        request'
closed_route names validate_and_parse policy request request' closed no_preflight h =
    let asked = resolve-required policy request.method request.path closed in
    elim (call_passes names validate_and_parse (resolve policy) request request' h) [
      | inl p ↦ let no : true ≡ false = sym p.0 ∙ no_preflight in cc
      | inr (inl a) ↦
          absurd (a.1 (found (Map.lookup request.method policy.route_matchers) request.path) asked)
      | inr (inr ok_request) ↦
          subst (λ q. IsAuthenticated names validate_and_parse request q request') asked ok_request
    ]
