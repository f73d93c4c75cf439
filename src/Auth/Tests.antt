-- ===== src/Auth/Tests.antt =====
-- A secured route, a caller with a wildcard role, and the theorems there.
use hyperspot.Common.{
  ◌≡◌, refl, ◌↔◌, true, none, some, [], ◌∷◌, In, Str, text_key, trim, trim_start, trim_end,
  strip_prefix, strip_suffix,
}
use hyperspot.Common.Map
use hyperspot.Auth.{
  Result, ok, err, Claims, ValidationConfig, SecRequirement, AuthRequirement, required,
  not_required, AuthError, HttpNames, Request, IngressRoutePolicy, Decision, passes, call, resolve,
  check_role, validate_claims, found, with_claims, is_preflight_request, unauthenticated,
  with_anonymous,
}
use hyperspot.Auth.Roles.{Grants, check_role_iff}
use hyperspot.Auth.Validation.{IsAccepted, validate_claims_iff}
use hyperspot.Auth.Requests.{IsAuthenticated, closed_route}

-- The resource "r" and the action "w".
abbrev requirement : SecRequirement
requirement = record { resource = 114 ∷ []; actions = (119 ∷ []) ∷ [] }

-- The role "r:*".
abbrev claims : Claims
claims = record {
  sub = 5;
  issuer = 105 ∷ [];
  audiences = [];
  expires_at = some 1000;
  not_before = none;
  tenants = 7 ∷ [];
  roles = (114 ∷ 58 ∷ 42 ∷ []) ∷ [];
}

check_role_iff_example : (check_role claims requirement ≡ true) ↔ (
    (action : Str) × In action requirement.actions
    × (role : Str) × In role claims.roles
    × Grants role requirement.resource action)
check_role_iff_example = check_role_iff claims requirement (refl, tt) ((refl, tt), tt)

abbrev config : ValidationConfig
config = record {
  allowed_issuers = (105 ∷ []) ∷ [];
  allowed_audiences = [];
  leeway = 60;
  require_uuid_subject = true;
  require_uuid_tenants = true;
}

validate_claims_iff_example :
    (validate_claims 1060 1060 claims config ≡ ok tt) ↔ IsAccepted config 1060 1060 claims
validate_claims_iff_example = validate_claims_iff 1060 1060 claims config

within_leeway : validate_claims 1060 1060 claims config ≡ ok tt
unfolding validate_claims hyperspot.Auth.is_expired_at hyperspot.Auth.is_early_at
within_leeway = refl

abbrev names : HttpNames
names = record {
  options = 79 ∷ [];
  authorization = 97 ∷ [];
  origin = 111 ∷ [];
  request_method = 109 ∷ [];
  bearer = 66 ∷ 32 ∷ [];
}

-- The method "G", and the header "B t".
abbrev request : Request
request = record {
  method = 71 ∷ [];
  path = 47 ∷ [];
  headers = (97 ∷ [], some (66 ∷ 32 ∷ 116 ∷ [])) ∷ [];
  ext_claims = none;
  ext_sec = none;
}

abbrev validate_and_parse : Str → Result AuthError Claims
validate_and_parse token = ok claims

abbrev policy : IngressRoutePolicy
policy = record {
  route_matchers = (71 ∷ [], λ path. some requirement) ∷ [];
  public_matchers = [];
  require_auth_by_default = true;
}

let_in :
    call names validate_and_parse (resolve policy) request ≡ passes (with_claims request claims)
unfolding call resolve is_preflight_request hyperspot.Auth.call_policy hyperspot.Auth.call_required
    hyperspot.Auth.authorize hyperspot.Auth.check check_role hyperspot.Auth.role_matches
    hyperspot.Auth.extract_bearer_token Map.lookup Map.contains_key strip_prefix strip_suffix trim
    trim_start trim_end
let_in = refl

closed_route_example :
    IsAuthenticated names validate_and_parse request
      (required (some requirement))
      (with_claims request claims)
unfolding Map.lookup is_preflight_request
closed_route_example =
    closed_route names validate_and_parse policy request (with_claims request claims) refl refl
      let_in
