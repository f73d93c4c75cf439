-- ===== src/Auth.antt =====
-- libs/modkit-auth/src and modules/api_ingress/src/auth.rs: claims and their validation, the role
-- check, the scope of the claims, the middleware that decides a request, and the route policy. The
-- validator of tokens (a JWT plugin) and the matchers of paths (matchit) are parameters.
pub mod Roles
pub mod Validation
pub mod Requests
mod Tests
use hyperspot.Common.{
  ℕ, ◌+◌, ◌-◌, Bool, true, false, not, ◌&&◌, ◌||◌, Option, none, some, List, [], ◌∷◌, ◌++◌, any,
  is_empty, contains, Str, text_key, nat_key, ◌==◌, trim, strip_prefix, strip_suffix, if◌then◌else◌,
  ltb,
}
use hyperspot.Common.Map
use hyperspot.Security.{Uuid, AccessScope, SecurityCtx, default_scope, tenants_only, anonymous}

pub data Result (E A : Type 0) : Type 0 where
  ok : A → Result E A
  err : E → Result E A

-- Times are numbers on one clock; the extra claims of a provider are left out.
pub record Claims : Type 0 where
  pub sub : Uuid
  pub issuer : Str
  pub audiences : List Str
  pub expires_at : Option ℕ
  pub not_before : Option ℕ
  pub tenants : List Uuid
  pub roles : List Str

pub data ClaimsError : Type 0 where
  invalid_issuer : List Str → Str → ClaimsError
  invalid_audience : List Str → List Str → ClaimsError
  expired not_yet_valid : ClaimsError
  nil_subject nil_tenant : ClaimsError

-- The leeway, an i64, is not negative here.
pub record ValidationConfig : Type 0 where
  pub allowed_issuers : List Str
  pub allowed_audiences : List Str
  pub leeway : ℕ
  pub require_uuid_subject : Bool
  pub require_uuid_tenants : Bool

-- Time 0 stands for a moment before all times, so that `nbf - leeway` is the code's or precedes `now`.
unfoldable pub is_expired_at : ValidationConfig → ℕ → Option ℕ → Bool
is_expired_at config now none = false
is_expired_at config now (some exp) = ltb (exp + config.leeway) now

unfoldable pub is_early_at : ValidationConfig → ℕ → Option ℕ → Bool
is_early_at config now none = false
is_early_at config now (some nbf) = ltb now (nbf - config.leeway)

-- The clock is read for the expiration and again for the not-before time.
unfoldable pub validate_claims : ℕ → ℕ → Claims → ValidationConfig → Result ClaimsError (Unit {0})
validate_claims now now' claims config =
    if not (is_empty config.allowed_issuers) && not (contains claims.issuer config.allowed_issuers)
    then err (invalid_issuer config.allowed_issuers claims.issuer)
    else if not (is_empty config.allowed_audiences)
        && not (any (λ aud. contains aud config.allowed_audiences) claims.audiences)
    then err (invalid_audience config.allowed_audiences claims.audiences)
    else if is_expired_at config now claims.expires_at
    then err expired
    else if is_early_at config now' claims.not_before
    then err not_yet_valid
    else if config.require_uuid_subject && claims.sub == 0
    then err nil_subject
    else if config.require_uuid_tenants && any (λ tenant. tenant == 0) claims.tenants
    then err nil_tenant
    else ok tt

pub record SecRequirement : Type 0 where
  pub resource : Str
  pub actions : List Str

pub data AuthRequirement : Type 0 where
  not_required : AuthRequirement
  required : Option SecRequirement → AuthRequirement
  optional : AuthRequirement

-- "*:*", ":*", "*:" and ":"; '*' is 42 and ':' is 58.
abbrev pub star_star : Str
star_star = 42 ∷ 58 ∷ 42 ∷ []

abbrev pub any_action : Str
any_action = 58 ∷ 42 ∷ []

abbrev pub any_resource : Str
any_resource = 42 ∷ 58 ∷ []

abbrev pub suffix_matches : Option Str → Str → Bool → Bool
suffix_matches none resource other = other
suffix_matches (some r) resource other = r == resource

abbrev pub prefix_matches : Option Str → Str → Bool → Bool
prefix_matches none action other = other
prefix_matches (some a) action other = action == a

unfoldable pub role_matches : Str → Str → Str → Bool
role_matches pattern resource action =
    if pattern == star_star
    then true
    else suffix_matches (strip_suffix any_action pattern) resource (
        prefix_matches (strip_prefix any_resource pattern) action
          (pattern == resource ++ 58 ∷ action))

unfoldable pub check_role : Claims → SecRequirement → Bool
check_role claims requirement =
    any (λ action. any (λ role. role_matches role requirement.resource action) claims.roles)
      requirement.actions

pub data AuthError : Type 0 where
  unauthenticated forbidden : AuthError
  invalid : Str → AuthError

unfoldable pub check : Claims → SecRequirement → Result AuthError (Unit {0})
check claims requirement = if check_role claims requirement then ok tt else err forbidden

unfoldable pub tenants_to_scope : Claims → AccessScope
tenants_to_scope claims =
    if is_empty claims.tenants then default_scope else tenants_only claims.tenants

-- A header's value, `none` where it is not readable as text.
abbrev pub HeaderMap : Type 0
HeaderMap = List (Str × Option Str)

pub record Request : Type 0 where
  pub method : Str
  pub path : Str
  pub headers : HeaderMap
  pub ext_claims : Option Claims
  pub ext_sec : Option SecurityCtx

-- "OPTIONS", and the names of the three headers.
pub record HttpNames : Type 0 where
  pub options : Str
  pub authorization : Str
  pub origin : Str
  pub request_method : Str
  pub bearer : Str  -- "Bearer ", with its blank

abbrev pub readable : Option (Option Str) → Option Str
readable none = none
readable (some v) = v

abbrev pub trimmed : Option Str → Option Str
trimmed none = none
trimmed (some s) = some (trim s)

abbrev pub stripped : Str → Option Str → Option Str
stripped prefix none = none
stripped prefix (some s) = trimmed (strip_prefix prefix s)

unfoldable pub extract_bearer_token : HttpNames → HeaderMap → Option Str
extract_bearer_token names headers =
    stripped names.bearer (readable (Map.lookup names.authorization headers))

unfoldable pub is_preflight_request : HttpNames → Str → HeaderMap → Bool
is_preflight_request names method headers =
    method == names.options
    && Map.contains_key names.origin headers
    && Map.contains_key names.request_method headers

-- The inner service is called with the request, or the response is made from an error.
pub data Decision : Type 0 where
  passes : Request → Decision
  refuses : AuthError → Decision

unfoldable pub with_anonymous : Request → Request
with_anonymous request = record request { ext_sec = some anonymous }

unfoldable pub ctx_of : Claims → SecurityCtx
ctx_of claims = record { scope = tenants_to_scope claims; subject = record { id = claims.sub } }

unfoldable pub with_claims : Request → Claims → Request
with_claims request claims = record request {
  ext_claims = some claims;
  ext_sec = some (ctx_of claims);
}

-- The role check of a required route, and what follows it.
abbrev pub after_check : Request → Claims → Result AuthError (Unit {0}) → Decision
after_check request claims (ok u) = passes (with_claims request claims)
after_check request claims (err e) = refuses e

unfoldable pub authorize : Request → Claims → Option SecRequirement → Decision
authorize request claims none = passes (with_claims request claims)
authorize request claims (some requirement) = after_check request claims (check claims requirement)

abbrev pub validated : Request → Option SecRequirement → Result AuthError Claims → Decision
validated request requirement (ok claims) = authorize request claims requirement
validated request requirement (err e) = refuses e

abbrev pub validated_optional : Request → Result AuthError Claims → Decision
validated_optional request (ok claims) = passes (with_claims request claims)
validated_optional request (err e) = passes (with_anonymous request)

module _ (names : HttpNames) (validate_and_parse : Str → Result AuthError Claims) where
  unfoldable pub call_required : Request → Option SecRequirement → Option Str → Decision
  call_required request requirement none = refuses unauthenticated
  call_required request requirement (some token) =
      validated request requirement (validate_and_parse token)

  unfoldable pub call_optional : Request → Option Str → Decision
  call_optional request none = passes (with_anonymous request)
  call_optional request (some token) = validated_optional request (validate_and_parse token)

  unfoldable pub call_policy : Request → AuthRequirement → Decision
  call_policy request not_required = passes (with_anonymous request)
  call_policy request (required requirement) =
      call_required request requirement (extract_bearer_token names request.headers)
  call_policy request optional = call_optional request (extract_bearer_token names request.headers)

  unfoldable pub call : (Str → Str → AuthRequirement) → Request → Decision
  call resolve request =
      if is_preflight_request names request.method request.headers
      then passes request
      else call_policy request (resolve request.method request.path)

-- The ingress's policy: per method, what the matcher of secured and of public paths finds.
pub record IngressRoutePolicy : Type 0 where
  pub route_matchers : List (Str × (Str → Option SecRequirement))
  pub public_matchers : List (Str × (Str → Bool))
  pub require_auth_by_default : Bool

abbrev pub found : Option (Str → Option SecRequirement) → Str → Option SecRequirement
found none path = none
found (some find) path = find path

abbrev pub is_public : Option (Str → Bool) → Str → Bool
is_public none path = false
is_public (some find) path = find path

abbrev pub is_some {ℓ} : {A : Type ℓ} → Option A → Bool
is_some none = false
is_some (some a) = true

unfoldable pub resolve : IngressRoutePolicy → Str → Str → AuthRequirement
resolve policy method path =
    let requirement : Option SecRequirement =
      found (Map.lookup method policy.route_matchers) path in
    let open_route : Bool = is_public (Map.lookup method policy.public_matchers) path in
    if is_some requirement || (policy.require_auth_by_default && not open_route)
    then required requirement
    else not_required
