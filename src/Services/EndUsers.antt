-- ===== src/Services/EndUsers.antt =====
-- apps/crm-api/src/end-users: domain/end-user.ts, application/end-users.ts and
-- infrastructure/memory-end-user-repository.ts.
pub mod Masks
use Prim.Native.Char.{code}
use Prim.Native.String.{◌++◌ as append}
use multi_domain_sandbox.Prelude.{
  ℕ, ◌-◌, String, Option, none, some, Bool, true, false, List, [], ◌∷◌, map, not, if◌then◌else◌,
}
use multi_domain_sandbox.Shared.CodeVerifier.{length, in_range}
use multi_domain_sandbox.Shared.Text.{split}
use multi_domain_sandbox.Shared.SetStore.{contains}
use multi_domain_sandbox.Shared.Strings.Slices.{take, drop}
use multi_domain_sandbox.Services.Table
use multi_domain_sandbox.Services.Table.{Keys}
use multi_domain_sandbox.Services.Posts.{or_else}

pub record EndUser : Type 0 where
  pub id : String
  pub tenant_id : String
  pub name : String
  pub email : String
  pub phone : String
  pub note : String

pub record EndUserInput : Type 0 where
  pub name : String
  pub email : String
  pub phone : String
  pub note : String

pub record EndUserInputPatch : Type 0 where
  pub name : Option String
  pub email : Option String
  pub phone : Option String
  pub note : Option String

pub record EndUserView : Type 0 where
  pub user : EndUser
  pub masked : Bool

abbrev pub keys : Keys EndUser
keys = record { id_of = λ u. u.id; tenant_of = λ u. u.tenant_id }

-- `replace(/\D/g, "")`
unfoldable pub digits : String → String
digits String.[] = ""
digits (String.◌∷◌ c s) =
    let rest = digits s in if in_range b'0' b'9' (code c) then String.◌∷◌ c rest else rest

-- `const [local = "", domain = ""]`
abbrev pub local_part : List String → String
local_part [] = ""
local_part (x ∷ xs) = x

abbrev pub domain_part : List String → String
domain_part [] = ""
domain_part (x ∷ []) = ""
domain_part (x ∷ y ∷ ys) = y

unfoldable pub masked_email : String → String
masked_email email =
    let parts = split b'@' email in
    append (take 1 (local_part parts)) (append "***@" (domain_part parts))

-- `slice(-4)` of the digits
unfoldable pub last_four : String → String
last_four phone = let only = digits phone in drop (length only - 4) only

unfoldable pub masked_phone : String → String
masked_phone phone = append "***-****-" (last_four phone)

unfoldable pub mask_end_user : EndUser → EndUser
mask_end_user user = record user {
  email = masked_email user.email;
  phone = masked_phone user.phone;
}

unfoldable pub present_end_user : EndUser → Bool → EndUserView
present_end_user user can_unmask = record {
  user = if can_unmask then user else mask_end_user user;
  masked = not can_unmask;
}

abbrev pub patched : EndUserInputPatch → EndUser → EndUser
patched input existing = record existing {
  name = or_else input.name existing.name;
  email = or_else input.email existing.email;
  phone = or_else input.phone existing.phone;
  note = or_else input.note existing.note;
}

-- The request's tenant and the user's permissions.
pub record Context : Type 0 where
  pub tenant_id : String
  pub permissions : List String

unfoldable pub can_unmask : Context → Bool
can_unmask ctx = contains "end_users:unmask" ctx.permissions

abbrev presented : Context → Option EndUser → Option EndUserView
presented ctx none = none
presented ctx (some user) = some (present_end_user user (can_unmask ctx))

unfoldable pub list_end_users : Context → List EndUser → List EndUserView × Bool
list_end_users ctx rows = (
  map (λ u. present_end_user u (can_unmask ctx)) (Table.list keys ctx.tenant_id rows),
  not (can_unmask ctx),
)

unfoldable pub get_end_user : Context → String → List EndUser → Option EndUserView
get_end_user ctx id rows = presented ctx (Table.find_by_id keys ctx.tenant_id id rows)

unfoldable pub create_end_user :
    Context → String → EndUserInput → List EndUser → EndUserView × List EndUser
create_end_user ctx ulid input rows =
    let created : EndUser = record {
      id = ulid;
      tenant_id = ctx.tenant_id;
      name = input.name;
      email = input.email;
      phone = input.phone;
      note = input.note;
    } in
    (present_end_user created (can_unmask ctx), Table.set keys created rows)

unfoldable pub update_end_user :
    Context → String → EndUserInputPatch → List EndUser → Option EndUserView × List EndUser
update_end_user ctx id input rows =
    let (updated, rows') = Table.update keys ctx.tenant_id id (patched input) rows in
    (presented ctx updated, rows')

unfoldable pub delete_end_user : Context → String → List EndUser → Bool × List EndUser
delete_end_user ctx id rows = Table.remove keys ctx.tenant_id id rows
