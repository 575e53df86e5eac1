-- ===== src/Api/Permissions/Laws.antt =====
-- Which permissions a member has.
use multi_domain_sandbox.Prelude.{
  String, ◌≡◌, refl, Bool, false, not, List, [], ◌∷◌, ◌&&◌, ◌||◌, arith, ◌==◌, eq_iff,
}
use multi_domain_sandbox.Shared.SetStore.{contains, add_member, remove_member}
use multi_domain_sandbox.Shared.SetStore.View.{contains-add_member, contains-remove_member}
use multi_domain_sandbox.Api.Permissions.{
  ServiceDefinition, PermissionOverride, or_empty, to_set, is_allow, is_permission, add_allowed,
  delete_denied, resolve_permissions,
}

-- Whether an override with the effect names the permission.
pub allows : String → List PermissionOverride → Bool
allows p [] = false
allows p (o ∷ os) = (is_allow o.effect && o.permission == p) || allows p os

pub denies : String → List PermissionOverride → Bool
denies p [] = false
denies p (o ∷ os) = (not (is_allow o.effect) && o.permission == p) || denies p os

contains-to_set :
    (p : String) (xs granted : List String)
    → contains p (to_set xs granted) ≡ (contains p xs || contains p granted)
unfolding to_set contains
contains-to_set p [] granted = refl
contains-to_set p (x ∷ xs) granted =
    ground (arith, contains-to_set p xs (add_member x granted), contains-add_member p x granted)

module _ (definition : ServiceDefinition) (p : String) where
  contains-add_allowed :
      (os : List PermissionOverride) (granted : List String)
      → contains p (add_allowed definition os granted)
        ≡ (contains p granted || (allows p os && is_permission definition p))
  unfolding add_allowed allows
  contains-add_allowed [] granted = ground arith
  contains-add_allowed (o ∷ os) granted = ground (
    arith,
    contains-add_allowed os granted,
    contains-add_allowed os (add_member o.permission granted),
    contains-add_member p o.permission granted,
    eq_iff o.permission p,
  )

  contains-delete_denied :
      (os : List PermissionOverride) (granted : List String)
      → contains p (delete_denied definition os granted) ≡ (contains p granted && not (denies p os))
  unfolding delete_denied denies
  contains-delete_denied [] granted = ground arith
  contains-delete_denied (o ∷ os) granted = ground (
    arith,
    contains-delete_denied os granted,
    contains-delete_denied os (remove_member o.permission granted),
    contains-remove_member p o.permission granted,
    eq_iff o.permission p,
  )

  -- A member has a permission exactly if no override denies it, and the role has it by default or
  -- an override allows it and the service knows it.
  pub contains-resolve_permissions :
      (role : String) (overrides : List PermissionOverride)
      → contains p (resolve_permissions definition role overrides) ≡ (
          (contains p (or_empty (definition.role_permissions role))
            || (allows p overrides && is_permission definition p))
          && not (denies p overrides))
  unfolding resolve_permissions contains
  contains-resolve_permissions role overrides =
      let defaults = to_set (or_empty (definition.role_permissions role)) [] in
      ground (
        arith,
        contains-delete_denied overrides (add_allowed definition overrides defaults),
        contains-add_allowed overrides defaults,
        contains-to_set p (or_empty (definition.role_permissions role)) [],
      )
