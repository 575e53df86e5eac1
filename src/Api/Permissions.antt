-- ===== src/Api/Permissions.antt =====
-- packages/api-core/src/domain: member.ts and service-definition.ts.
pub mod Laws
use multi_domain_sandbox.Prelude.{
  String, Bool, true, false, Option, none, some, List, [], ◌∷◌, ◌++◌, ◌&&◌, if◌then◌else◌,
}
use multi_domain_sandbox.Shared.SetStore.{contains, add_member, remove_member}

pub data MemberStatus : Type 0 where
  active disabled : MemberStatus

pub record Member : Type 0 where
  pub tenant_id : String
  pub user_id : String
  pub email : Option String
  pub name : Option String
  pub role : String
  pub status : MemberStatus

pub data PermissionEffect : Type 0 where
  allow deny : PermissionEffect

pub record PermissionOverride : Type 0 where
  pub permission : String
  pub effect : PermissionEffect

abbrev member_permissions : List String
member_permissions = "members:read" ∷ "members:invite" ∷ "members:manage" ∷ []

pub record ServiceDefinition : Type 0 where
  pub roles : List String
  pub default_role : String
  pub permissions : List String
  pub role_permissions : String → Option (List String)

abbrev pub or_empty : Option (List String) → List String
or_empty none = []
or_empty (some xs) = xs

-- `new Set(...)`
unfoldable pub to_set : List String → List String → List String
to_set [] granted = granted
to_set (x ∷ xs) granted = to_set xs (add_member x granted)

abbrev pub is_allow : PermissionEffect → Bool
is_allow PermissionEffect.allow = true
is_allow PermissionEffect.deny = false

module _ (definition : ServiceDefinition) where
  unfoldable pub all_permissions : List String
  all_permissions = definition.permissions ++ member_permissions

  unfoldable pub is_role : String → Bool
  is_role value = contains value definition.roles

  unfoldable pub is_permission : String → Bool
  unfolding all_permissions
  is_permission value = contains value all_permissions

  -- The first pass: what is allowed is added.
  add_allowed : List PermissionOverride → List String → List String
  add_allowed [] granted = granted
  add_allowed (o ∷ os) granted =
      let next =
        if is_allow o.effect && is_permission o.permission
        then add_member o.permission granted
        else granted in
      add_allowed os next

  -- The second pass: what is denied is deleted.
  delete_denied : List PermissionOverride → List String → List String
  delete_denied [] granted = granted
  delete_denied (o ∷ os) granted =
      let next = if is_allow o.effect then granted else remove_member o.permission granted in
      delete_denied os next

  unfoldable pub resolve_permissions : String → List PermissionOverride → List String
  unfolding add_allowed delete_denied
  resolve_permissions role overrides =
      delete_denied overrides
        (add_allowed overrides (to_set (or_empty (definition.role_permissions role)) []))
