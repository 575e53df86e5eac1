-- ===== src/Services/Posts.antt =====
-- apps/cms-api/src/posts: domain/post.ts, application/posts.ts, infrastructure/memory-post-repository.ts.
pub mod Tenants
use multi_domain_sandbox.Prelude.{
  ℕ, String, Option, none, some, Bool, true, false, List, [], ◌∷◌, ◌==◌, if◌then◌else◌,
}
use multi_domain_sandbox.Services.Table
use multi_domain_sandbox.Services.Table.{Keys}

pub record Post : Type 0 where
  pub id : String
  pub tenant_id : String
  pub title : String
  pub body : String
  pub author_id : String
  pub created_at : String
  pub updated_at : String

pub record PostInput : Type 0 where
  pub title : String
  pub body : String

pub record PostInputPatch : Type 0 where
  pub title : Option String
  pub body : Option String

abbrev pub keys : Keys Post
keys = record { id_of = λ p. p.id; tenant_of = λ p. p.tenant_id }

-- `patched ?? existing`
abbrev pub or_else : Option String → String → String
or_else none existing = existing
or_else (some value) existing = value

abbrev pub patched : PostInputPatch → Post → Post
patched input existing = record existing {
  title = or_else input.title existing.title;
  body = or_else input.body existing.body;
}

-- The request's tenant and user.
pub record Context : Type 0 where
  pub tenant_id : String
  pub user_id : String

unfoldable pub list_posts : Context → List Post → List Post
list_posts ctx posts = Table.list keys ctx.tenant_id posts

unfoldable pub get_post : Context → String → List Post → Option Post
get_post ctx id posts = Table.find_by_id keys ctx.tenant_id id posts

-- The new post's identifier is a ULID; the in-memory repository dates it 1970-01-01T00:00:00.000Z.
unfoldable pub create_post : Context → String → PostInput → List Post → Post × List Post
create_post ctx ulid input posts =
    let created : Post = record {
      id = ulid;
      tenant_id = ctx.tenant_id;
      title = input.title;
      body = input.body;
      author_id = ctx.user_id;
      created_at = "1970-01-01T00:00:00.000Z";
      updated_at = "1970-01-01T00:00:00.000Z";
    } in
    (created, Table.set keys created posts)

unfoldable pub update_post : Context → String → PostInputPatch → List Post → Option Post × List Post
update_post ctx id input posts = Table.update keys ctx.tenant_id id (patched input) posts

unfoldable pub delete_post : Context → String → List Post → Bool × List Post
delete_post ctx id posts = Table.remove keys ctx.tenant_id id posts
