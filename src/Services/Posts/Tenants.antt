-- ===== src/Services/Posts/Tenants.antt =====
-- The posts of one tenant, whatever another does.
use multi_domain_sandbox.Prelude.{String, ◌≡◌, ◌≢◌, refl, none, List}
use multi_domain_sandbox.Services.Table.{row}
use multi_domain_sandbox.Services.Table.Tenants.{list-update, list-remove, list-set_new}
use multi_domain_sandbox.Services.Posts.{
  Post, PostInput, PostInputPatch, Context, keys, patched, list_posts, create_post, update_post,
  delete_post,
}

-- What one tenant's member asks of the posts.
pub data Change : Type 0 where
  creates : String → PostInput → Change
  updates : String → PostInputPatch → Change
  deletes : String → Change

unfoldable pub change : Context → Change → List Post → List Post
change ctx (creates ulid input) posts = (create_post ctx ulid input posts).1
change ctx (updates id input) posts = (update_post ctx id input posts).1
change ctx (deletes id) posts = (delete_post ctx id posts).1

-- The identifiers of the posts that are created are new.
unfoldable pub IsNew : Change → List Post → Type 0
IsNew (creates ulid input) posts = row keys ulid posts ≡ none
IsNew (updates id input) posts = Unit {0}
IsNew (deletes id) posts = Unit {0}

-- Whatever a member of one tenant creates under a new identifier, or updates or deletes under any
-- identifier, another tenant's list of posts stays as it was.
pub list_posts-change :
    (ctx other : Context) (c : Change) (posts : List Post)
    → ctx.tenant_id ≢ other.tenant_id
    → IsNew c posts
    → list_posts other (change ctx c posts) ≡ list_posts other posts
unfolding change list_posts create_post update_post delete_post IsNew
list_posts-change ctx other (creates ulid input) posts apart new =
    list-set_new keys ctx.tenant_id other.tenant_id apart (create_post ctx ulid input posts).0 posts
      new refl
list_posts-change ctx other (updates id input) posts apart new =
    list-update keys ctx.tenant_id other.tenant_id apart id (patched input) posts (λ x. refl)
      (λ x. refl)
list_posts-change ctx other (deletes id) posts apart new =
    list-remove keys ctx.tenant_id other.tenant_id apart id posts
