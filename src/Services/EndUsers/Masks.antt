-- ===== src/Services/EndUsers/Masks.antt =====
-- What a member without `end_users:unmask` is shown of a customer.
use Prim.Native.Char.{Char}
use Prim.Native.String.{◌++◌ as append}
use multi_domain_sandbox.Prelude.{String, ◌≡◌, refl, sym, ◌∙◌, ap, true, false, some, List}
use multi_domain_sandbox.Shared.Text.{lacks, split-append, split_free}
use multi_domain_sandbox.Shared.Strings.Slices.{take}
use multi_domain_sandbox.Services.Table.{find_by_id}
use multi_domain_sandbox.Services.EndUsers.{
  EndUser, Context, keys, last_four, masked_email, masked_phone, mask_end_user, present_end_user,
  can_unmask, get_end_user,
}

-- An address is masked to the first character of its local part and its domain: nothing else of the local
-- part is left.
masked_email-lem :
    (c : Char) (local domain : String)
    → lacks b'@' (String.◌∷◌ c local) ≡ true
    → lacks b'@' domain ≡ true
    → masked_email (append (String.◌∷◌ c local) (String.◌∷◌ "@" domain))
      ≡ append (String.◌∷◌ c "") (append "***@" domain)
unfolding masked_email take
masked_email-lem c local domain l d =
    rw (split-append b'@' (String.◌∷◌ c local) "@" domain l refl, split_free b'@' domain d) refl

-- Two customers with the same name and note, the same first character and domain of the e-mail address, and
-- the same last four digits of the telephone number.
pub record LookAlike (u v : EndUser) : Type 0 where
  pub id : u.id ≡ v.id
  pub tenant_id : u.tenant_id ≡ v.tenant_id
  pub name : u.name ≡ v.name
  pub note : u.note ≡ v.note
  pub first : Char
  pub domain : String
  pub local : String
  pub local' : String
  pub free : lacks b'@' (String.◌∷◌ first local) ≡ true
  pub free' : lacks b'@' (String.◌∷◌ first local') ≡ true
  pub domain_free : lacks b'@' domain ≡ true
  pub email : u.email ≡ append (String.◌∷◌ first local) (String.◌∷◌ "@" domain)
  pub email' : v.email ≡ append (String.◌∷◌ first local') (String.◌∷◌ "@" domain)
  pub phone : last_four u.phone ≡ last_four v.phone

mask_end_user-LookAlike : (u v : EndUser) → LookAlike u v → mask_end_user u ≡ mask_end_user v
unfolding mask_end_user masked_phone
mask_end_user-LookAlike u v l =
    let email : masked_email u.email ≡ masked_email v.email =
      ap masked_email l.email
      ∙ masked_email-lem l.first l.local l.domain l.free l.domain_free
      ∙ sym (masked_email-lem l.first l.local' l.domain l.free' l.domain_free)
      ∙ sym (ap masked_email l.email') in
    cc (email, l.phone, l.id, l.tenant_id, l.name, l.note)

-- A member without `end_users:unmask` is shown the same of two customers who look alike: the rest of the
-- address's local part and the other digits of the number make no difference to what is answered.
pub get_end_user_masks :
    (ctx : Context) (id : String) (rows rows' : List EndUser) (u v : EndUser)
    → can_unmask ctx ≡ false
    → find_by_id keys ctx.tenant_id id rows ≡ some u
    → find_by_id keys ctx.tenant_id id rows' ≡ some v
    → LookAlike u v
    → get_end_user ctx id rows ≡ get_end_user ctx id rows'
unfolding get_end_user present_end_user
get_end_user_masks ctx id rows rows' u v locked f g l =
    rw (f, g, locked, mask_end_user-LookAlike u v l) refl
