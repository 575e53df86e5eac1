-- ===== src/Auth/Identity.antt =====
-- apps/auth-api/src/infrastructure/memory-identity-repository.ts: the identity repository of
-- application/ports/identity-repository.ts. `toLowerCase` is the caller's `lower`.
use multi_domain_sandbox.Prelude.{
  ℕ, String, Bool, true, false, not, ◌&&◌, Option, none, some, List, [], ◌∷◌, ◌++◌, ◌==◌,
  if◌then◌else◌,
}
use multi_domain_sandbox.Auth.Domain.{
  User, NewUser, Tenant, OidcClient, Contract, ServiceMembership, ServiceMembershipStatus,
  UserStatus, MfaMethod, UserMfaMethod,
}

-- `Array.find`, `Array.filter`
abbrev pub find {ℓ} : {A : Type ℓ} → (A → Bool) → List A → Option A
find p [] = none
find p (x ∷ xs) = if p x then some x else find p xs

abbrev pub filter {ℓ} : {A : Type ℓ} → (A → Bool) → List A → List A
filter p [] = []
filter p (x ∷ xs) = let rest = filter p xs in if p x then x ∷ rest else rest

pub record ContractRow : Type 0 where
  pub tenant_id : String
  pub oidc_client_id : String
  pub contract : Contract

pub record MembershipRow : Type 0 where
  pub tenant_id : String
  pub oidc_client_id : String
  pub user_id : String
  pub membership : ServiceMembership

pub record MfaRow : Type 0 where
  pub user_id : String
  pub methods : List UserMfaMethod

-- `users` and `mfa_methods` in the order of insertion, one row for a key.
pub record MemoryIdentityRepository : Type 0 where
  pub clients : List OidcClient
  pub tenants : List Tenant
  pub users : List User
  pub contracts : List ContractRow
  pub memberships : List MembershipRow
  pub mfa_methods : List MfaRow

-- `users.set(user.id, user)`
unfoldable pub set_user : User → List User → List User
set_user u [] = u ∷ []
set_user u (v ∷ vs) = let rest = set_user u vs in if v.id == u.id then u ∷ vs else v ∷ rest

abbrev is_some_text : Option String → String → Bool
is_some_text none t = false
is_some_text (some s) t = s == t

module _ (r : MemoryIdentityRepository) where
  unfoldable pub find_client : String → Option OidcClient
  find_client client_id = find (λ c. c.client_id == client_id) r.clients

  unfoldable pub find_client_by_id : String → Option OidcClient
  find_client_by_id id = find (λ c. c.id == id) r.clients

  unfoldable pub find_user_by_cognito_sub : String → Option User
  find_user_by_cognito_sub sub = find (λ u. is_some_text u.cognito_sub sub) r.users

  unfoldable pub find_user_by_email : (String → String) → String → Option User
  find_user_by_email lower email = find (λ u. lower u.email == lower email) r.users

  unfoldable pub find_user_by_id : String → Option User
  find_user_by_id id = find (λ u. u.id == id) r.users

  unfoldable pub create_user : NewUser → User × MemoryIdentityRepository
  create_user user =
      let created : User = record {
        id = user.id;
        cognito_sub = user.cognito_sub;
        email = user.email;
        name = user.name;
        status = UserStatus.active;
      } in
      (created, record r { users = set_user created r.users })

  -- `none` where the program throws: the user is not there.
  unfoldable pub link_cognito_sub : String → String → Option (User × MemoryIdentityRepository)
  link_cognito_sub user_id sub = elim (find_user_by_id user_id) [
    | none ↦ none
    | some user ↦
        let linked : User = record user { cognito_sub = some sub } in
        some (linked, record r { users = set_user linked r.users })
  ]

  unfoldable pub find_tenant_by_id : String → Option Tenant
  find_tenant_by_id id = find (λ t. t.id == id) r.tenants

  unfoldable pub find_tenant_by_slug : String → Option Tenant
  find_tenant_by_slug slug = find (λ t. t.slug == slug) r.tenants

  abbrev contract_is : String → String → ContractRow → Bool
  contract_is tenant_id client_id c = c.tenant_id == tenant_id && c.oidc_client_id == client_id

  abbrev membership_is : String → String → String → MembershipRow → Bool
  membership_is tenant_id client_id user_id m =
      m.tenant_id == tenant_id && m.oidc_client_id == client_id && m.user_id == user_id

  unfoldable pub find_contract : String → String → Option Contract
  find_contract tenant_id client_id = elim (find (contract_is tenant_id client_id) r.contracts) [
    | none ↦ none
    | some found ↦ some found.contract
  ]

  unfoldable pub find_service_membership : String → String → String → Option ServiceMembership
  find_service_membership tenant_id client_id user_id =
      elim (find (membership_is tenant_id client_id user_id) r.memberships) [
        | none ↦ none
        | some found ↦ some found.membership
      ]

  unfoldable pub remove_service_membership : String → String → String → MemoryIdentityRepository
  remove_service_membership tenant_id client_id user_id = record r {
    memberships = filter (λ m. not (membership_is tenant_id client_id user_id m)) r.memberships;
  }

  unfoldable pub upsert_service_membership : String → String → String → MemoryIdentityRepository
  upsert_service_membership tenant_id client_id user_id = record r {
    memberships =
        filter (λ m. not (membership_is tenant_id client_id user_id m)) r.memberships
        ++ record {
          tenant_id = tenant_id;
          oidc_client_id = client_id;
          user_id = user_id;
          membership = record { status = ServiceMembershipStatus.active };
        }
          ∷ [];
  }

abbrev same_method : MfaMethod → MfaMethod → Bool
same_method MfaMethod.totp MfaMethod.totp = true

abbrev has_method : MfaMethod → List UserMfaMethod → Bool
has_method m [] = false
has_method m (x ∷ xs) = let rest = has_method m xs in if same_method x.method m then true else rest

add_method : String → MfaMethod → ℕ → List MfaRow → List MfaRow
add_method user_id method at [] =
    record { user_id = user_id; methods = record { method = method; enrolled_at = at } ∷ [] } ∷ []
add_method user_id method at (row ∷ rows) =
    let rest = add_method user_id method at rows in
    if row.user_id == user_id
    then (if has_method method row.methods then row else record row {
      methods = row.methods ++ record { method = method; enrolled_at = at } ∷ [];
    })
      ∷ rows
    else row ∷ rest

unfoldable pub record_mfa_method :
    MemoryIdentityRepository → String → MfaMethod → ℕ → MemoryIdentityRepository
unfolding add_method
record_mfa_method r user_id method enrolled_at = record r {
  mfa_methods = add_method user_id method enrolled_at r.mfa_methods;
}
