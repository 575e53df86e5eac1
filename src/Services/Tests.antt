-- ===== src/Services/Tests.antt =====
-- The theorems of the posts and the customers at concrete values.
use multi_domain_sandbox.Prelude.{◌≡◌, refl, ap, arith, false, true, ◌==◌, [], ◌∷◌}
use multi_domain_sandbox.Shared.SetStore.{contains}
use multi_domain_sandbox.Shared.Strings.Slices.{drop}
use multi_domain_sandbox.Shared.Text.{lacks}
use multi_domain_sandbox.Services.Table.{row, find_by_id}
use multi_domain_sandbox.Services.Posts
use multi_domain_sandbox.Services.Posts.{Post, list_posts}
use multi_domain_sandbox.Services.Posts.Tenants.{Change, creates, change, IsNew, list_posts-change}
use multi_domain_sandbox.Services.EndUsers
use multi_domain_sandbox.Services.EndUsers.{EndUser, can_unmask, get_end_user, digits, last_four}
use multi_domain_sandbox.Services.EndUsers.Masks.{LookAlike, get_end_user_masks}

abbrev acme_post : Post
acme_post = record {
  id = "p1";
  tenant_id = "acme";
  title = "Hello";
  body = "";
  author_id = "u1";
  created_at = "2026-01-01T00:00:00.000Z";
  updated_at = "2026-01-01T00:00:00.000Z";
}

abbrev acme : Posts.Context
acme = record { tenant_id = "acme"; user_id = "u1" }

abbrev globex : Posts.Context
globex = record { tenant_id = "globex"; user_id = "u2" }

abbrev creation : Change
creation = creates "p2" (record { title = "New"; body = "text" })

list_posts-change_example :
    list_posts acme (change globex creation (acme_post ∷ [])) ≡ list_posts acme (acme_post ∷ [])
unfolding IsNew row
list_posts-change_example =
    list_posts-change globex acme creation (acme_post ∷ [])
      (λ e. let p : false ≡ true = ap (λ x. x == "acme") e in ground (arith, p)) refl

abbrev ann : EndUser
ann = record {
  id = "e1";
  tenant_id = "acme";
  name = "Ann";
  email = "ann@mail.example";
  phone = "090-1234-5678";
  note = "";
}

abbrev look_alike : EndUser
look_alike = record ann { email = "alice@mail.example"; phone = "03-9999-5678" }

alike : LookAlike ann look_alike
unfolding last_four digits lacks drop
alike = record {
  id = refl;
  tenant_id = refl;
  name = refl;
  note = refl;
  first = "a";
  domain = "mail.example";
  local = "nn";
  local' = "lice";
  free = refl;
  free' = refl;
  domain_free = refl;
  email = refl;
  email' = refl;
  phone = refl;
}

abbrev member : EndUsers.Context
member = record { tenant_id = "acme"; permissions = "end_users:read" ∷ [] }

get_end_user_masks_example :
    get_end_user member "e1" (ann ∷ []) ≡ get_end_user member "e1" (look_alike ∷ [])
unfolding can_unmask contains find_by_id row
get_end_user_masks_example =
    get_end_user_masks member "e1" (ann ∷ []) (look_alike ∷ []) ann look_alike refl refl refl alike
