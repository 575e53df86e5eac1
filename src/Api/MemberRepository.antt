-- ===== src/Api/MemberRepository.antt =====
-- packages/api-core/src/infrastructure/memory-member-repository.ts.
use Prim.Native.String.{◌++◌ as append}
use multi_domain_sandbox.Prelude.{String, Option, none, some, List, [], ◌∷◌, ◌==◌, if◌then◌else◌}
use multi_domain_sandbox.Shared.Map
use multi_domain_sandbox.Shared.Map.{Map}
use multi_domain_sandbox.Auth.Identity.{filter}
use multi_domain_sandbox.Api.Permissions.{Member, PermissionOverride}

pub record MemberWithOverrides : Type 0 where
  pub member : Member
  pub overrides : List PermissionOverride

-- The members by key, in the order of insertion.
pub record MemoryMemberRepository : Type 0 where
  pub members : List (String × Member)
  pub overrides : Map (List PermissionOverride)

unfoldable pub key : String → String → String
key tenant_id user_id = append tenant_id (append ":" user_id)

unfoldable pub get_row : String → List (String × Member) → Option Member
get_row k [] = none
get_row k ((j, m) ∷ rows) = let rest = get_row k rows in if j == k then some m else rest

unfoldable pub set_row : String → Member → List (String × Member) → List (String × Member)
set_row k m [] = (k, m) ∷ []
set_row k m ((j, n) ∷ rows) =
    let rest = set_row k m rows in if j == k then (k, m) ∷ rows else (j, n) ∷ rest

unfoldable pub delete_row : String → List (String × Member) → List (String × Member)
delete_row k [] = []
delete_row k ((j, n) ∷ rows) =
    let rest = delete_row k rows in if j == k then rest else (j, n) ∷ rest

abbrev values : List (String × Member) → List Member
values [] = []
values ((k, m) ∷ rows) = m ∷ values rows

abbrev overrides_or_empty : Option (List PermissionOverride) → List PermissionOverride
overrides_or_empty none = []
overrides_or_empty (some os) = os

-- `a ?? b ?? null`
abbrev or_else : Option String → Option String → Option String
or_else (some a) b = some a
or_else none b = b

abbrev email_of : Option Member → Option String
email_of none = none
email_of (some m) = m.email

abbrev name_of : Option Member → Option String
name_of none = none
name_of (some m) = m.name

module _ (r : MemoryMemberRepository) where
  unfoldable pub find : String → String → Option Member
  find tenant_id user_id = get_row (key tenant_id user_id) r.members

  unfoldable pub find_with_overrides : String → String → Option MemberWithOverrides
  find_with_overrides tenant_id user_id = elim (find tenant_id user_id) [
    | none ↦ none
    | some member ↦ some (record {
      member = member;
      overrides = overrides_or_empty (r.overrides (key tenant_id user_id));
    })
  ]

  unfoldable pub list : String → List Member
  list tenant_id = filter (λ m. m.tenant_id == tenant_id) (values r.members)

  unfoldable pub upsert : Member → Member × MemoryMemberRepository
  upsert member =
      let k = key member.tenant_id member.user_id in
      let existing = get_row k r.members in
      let merged = record member {
        email = or_else member.email (email_of existing);
        name = or_else member.name (name_of existing);
      } in
      (merged, record r { members = set_row k merged r.members })

  unfoldable pub remove : String → String → MemoryMemberRepository
  remove tenant_id user_id =
      let k = key tenant_id user_id in
      record r { members = delete_row k r.members; overrides = Map.remove k r.overrides }

  unfoldable pub replace_overrides :
      String → String → List PermissionOverride → MemoryMemberRepository
  replace_overrides tenant_id user_id overrides = record r {
    overrides = Map.insert (key tenant_id user_id) overrides r.overrides;
  }
