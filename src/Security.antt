-- ===== src/Security.antt =====
-- libs/modkit-security/src: the access scope, the subject, and the security context of a request.
-- A Uuid is a number.
pub mod Codec
use hyperspot.Common.{
  ℕ, Bool, true, false, not, ◌&&◌, List, [], ◌∷◌, is_empty, contains, ◌==◌, nat_key, if◌then◌else◌,
}

abbrev pub Uuid : Type 0
Uuid = ℕ

-- constants.rs, read as 128-bit numbers.
abbrev pub root_tenant_id : Uuid
root_tenant_id = 0x00000000_df51_5b42_9538_d2b56b7ee953

abbrev pub root_subject_id : Uuid
root_subject_id = 0x11111111_6a88_4768_9dfc_6bcd5187d9ed

abbrev pub anonymous_subject_id : Uuid
anonymous_subject_id = 0x22222222_0830_5695_92eb_d648d8b346a6

pub record AccessScope : Type 0 where
  pub is_root : Bool
  pub tenant_ids : List Uuid
  pub resource_ids : List Uuid

-- Names of the type's functions, as in the source.
unfoldable pub default_scope : AccessScope
default_scope = record { is_root = false; tenant_ids = []; resource_ids = [] }

unfoldable pub scope_is_empty : AccessScope → Bool
scope_is_empty s = if s.is_root then false else is_empty s.tenant_ids && is_empty s.resource_ids

unfoldable pub has_tenants : AccessScope → Bool
has_tenants s = not (is_empty s.tenant_ids)

unfoldable pub has_resources : AccessScope → Bool
has_resources s = not (is_empty s.resource_ids)

unfoldable pub tenants_only : List Uuid → AccessScope
tenants_only ids = record { is_root = false; tenant_ids = ids; resource_ids = [] }

unfoldable pub resources_only : List Uuid → AccessScope
resources_only ids = record { is_root = false; tenant_ids = []; resource_ids = ids }

unfoldable pub tenant : Uuid → AccessScope
unfolding tenants_only
tenant id = tenants_only (id ∷ [])

unfoldable pub resource : Uuid → AccessScope
unfolding resources_only
resource id = resources_only (id ∷ [])

unfoldable pub both : List Uuid → List Uuid → AccessScope
both tenants resources = record { is_root = false; tenant_ids = tenants; resource_ids = resources }

unfoldable pub root_tenant : AccessScope
root_tenant = record { is_root = true; tenant_ids = []; resource_ids = [] }

unfoldable pub includes_root_tenant : AccessScope → Bool
includes_root_tenant s = contains root_tenant_id s.tenant_ids

pub record Subject : Type 0 where
  pub id : Uuid

unfoldable pub root_subject : Subject
root_subject = record { id = root_subject_id }

unfoldable pub subject_is_root : Subject → Bool
subject_is_root s = s.id == root_subject_id

pub record SecurityCtx : Type 0 where
  pub scope : AccessScope
  pub subject : Subject

unfoldable pub for_tenants : List Uuid → Uuid → SecurityCtx
unfolding tenants_only
for_tenants ids subject_id = record {
  scope = tenants_only ids;
  subject = record { id = subject_id };
}

unfoldable pub for_tenant : Uuid → Uuid → SecurityCtx
unfolding for_tenants
for_tenant id subject_id = for_tenants (id ∷ []) subject_id

unfoldable pub for_resources : List Uuid → Uuid → SecurityCtx
unfolding resources_only
for_resources ids subject_id = record {
  scope = resources_only ids;
  subject = record { id = subject_id };
}

unfoldable pub for_resource : Uuid → Uuid → SecurityCtx
unfolding for_resources
for_resource id subject_id = for_resources (id ∷ []) subject_id

unfoldable pub deny_all : Uuid → SecurityCtx
unfolding default_scope
deny_all subject_id = record { scope = default_scope; subject = record { id = subject_id } }

unfoldable pub anonymous : SecurityCtx
unfolding deny_all
anonymous = deny_all anonymous_subject_id

unfoldable pub root_ctx : SecurityCtx
unfolding root_tenant root_subject
root_ctx = record { scope = root_tenant; subject = root_subject }

unfoldable pub is_denied : SecurityCtx → Bool
unfolding scope_is_empty
is_denied c = scope_is_empty c.scope

unfoldable pub has_tenant_access : SecurityCtx → Bool
unfolding has_tenants
has_tenant_access c = has_tenants c.scope

unfoldable pub has_resource_access : SecurityCtx → Bool
unfolding has_resources
has_resource_access c = has_resources c.scope
