-- ===== src/Auth/RefreshTokens/Family.antt =====
-- Families of refresh tokens: which tokens the store can still find, and what a revocation leaves.
use multi_domain_sandbox.Prelude.{
  ℕ, ◌+◌, ◌≤◌, String, ◌≡◌, ◌≢◌, refl, Bool, true, false, ◌&&◌, ◌||◌, Option, none, some, List, [],
  ◌∷◌, arith, ◌<◌, ◌⊎◌, inl, inr, leb, Bool-cases, ◌==◌, eq_iff,
}
use multi_domain_sandbox.Shared.KvStore
use multi_domain_sandbox.Shared.KvStore.{Entry, MemoryKeyValueStore, value_of}
use multi_domain_sandbox.Shared.KvStore.View.{view, view-get, view-set, get_lem, view_mono}
use multi_domain_sandbox.Shared.SetStore
use multi_domain_sandbox.Shared.SetStore.{
  SetEntry, MemorySetStore, contains, add_member, members_of,
}
use multi_domain_sandbox.Shared.SetStore.View as SetView
use multi_domain_sandbox.Shared.SetStore.View.{contains-add_member}
use multi_domain_sandbox.Auth.Domain.{refresh_token_ttl_seconds}
use multi_domain_sandbox.Auth.Stores.{RefreshToken, revoked, is_active}
use multi_domain_sandbox.Auth.State.{AuthState}
use multi_domain_sandbox.Auth.RefreshTokens.{set_token, get_each, set_revoked}

abbrev pub Tokens : Type 0
Tokens = MemoryKeyValueStore RefreshToken

abbrev pub is_some : Option RefreshToken → Bool
is_some none = false
is_some (some _) = true

pub has_token : String → List (String × Option RefreshToken) → Bool
has_token k [] = false
has_token k ((j, o) ∷ rest) = (j == k && is_some o) || has_token k rest

module _ (now t : ℕ) (k : String) (h : now ≤ t) where
  pub view-get_each :
      (keys : List String) (s : Tokens) → view (get_each now keys s).1 t k ≡ view s t k
  unfolding get_each
  view-get_each [] s = refl
  view-get_each (j ∷ keys) s =
      ground (arith, view-get_each keys (KvStore.get now j s).1, view-get now t j k s h)

  -- What is active after the writes was there before, and no write was under its key.
  pub set_revoked_active :
      (recs : List (String × Option RefreshToken)) (s : Tokens) (e : Entry RefreshToken)
      → view (set_revoked now recs s) t k ≡ some e
      → is_active e.value.status ≡ true
      → (view s t k ≡ some e) × (has_token k recs ≡ false)
  unfolding set_revoked has_token
  set_revoked_active [] s e p a = (p, refl)
  set_revoked_active ((j, none) ∷ rest) s e p a = ground (arith, set_revoked_active rest s e p a)
  set_revoked_active ((j, some stored) ∷ rest) s e p a =
      let token : RefreshToken = record stored { status = revoked } in
      ground (
        arith,
        set_revoked_active rest (set_token now j token s) e p a,
        view-set now t j k s h token refresh_token_ttl_seconds,
      )

  pub set_revoked_bounded :
      (recs : List (String × Option RefreshToken)) (s : Tokens) (e : Entry RefreshToken)
      → view (set_revoked now recs s) t k ≡ some e
      → (view s t k ≡ some e) ⊎ (e.expires_at ≤ now + refresh_token_ttl_seconds)
  unfolding set_revoked
  set_revoked_bounded [] s e p = inl p
  set_revoked_bounded ((j, none) ∷ rest) s e p = set_revoked_bounded rest s e p
  set_revoked_bounded ((j, some stored) ∷ rest) s e p =
      let token : RefreshToken = record stored { status = revoked } in
      ground (
        arith,
        set_revoked_bounded rest (set_token now j token s) e p,
        view-set now t j k s h token refresh_token_ttl_seconds,
      )

get_each_finds :
    (now : ℕ) (k : String) (keys : List String) (s : Tokens) (e : Entry RefreshToken)
    → contains k keys ≡ true
    → view s now k ≡ some e
    → has_token k (get_each now keys s).0 ≡ true
unfolding get_each has_token contains
get_each_finds now k [] s e c p = cc
get_each_finds now k (j ∷ keys) s e c p = ground (
  arith,
  get_each_finds now k keys (KvStore.get now j s).1 e,
  eq_iff j k,
  get_lem now j s,
  view-get now now j k s,
)

abbrev pub ttl : ℕ
ttl = refresh_token_ttl_seconds

-- The family's set holds the key at least until `t`.
abbrev pub Holds : Option SetEntry → String → ℕ → Type 0
Holds none k t = ⊥
Holds (some f) k t = (contains k f.members ≡ true) × (t ≤ f.expires_at)

-- Every token that is still active is found by its family, and neither outlives a full lifetime.
pub record IsTracked (now : ℕ) (tokens : Tokens) (families : MemorySetStore) : Type 0 where
  pub found :
      (k : String) (e : Entry RefreshToken)
      → view tokens now k ≡ some e
      → is_active e.value.status ≡ true
      → Holds (SetView.view families now e.value.family_id) k e.expires_at
  pub bounded :
      (k : String) (e : Entry RefreshToken) → view tokens now k ≡ some e → e.expires_at ≤ now + ttl

abbrev pub AllTracked : AuthState → Type 0
AllTracked s = IsTracked s.now s.refresh_tokens s.refresh_token_families

Holds-contains :
    (o : Option SetEntry) (k : String) (t : ℕ) → Holds o k t → contains k (members_of o) ≡ true
Holds-contains none k t h = absurd h
Holds-contains (some f) k t h = h.0

module _ (now : ℕ) (tokens : Tokens) (families : MemorySetStore)
    (tr : IsTracked now tokens families) where
  -- `revokeRefreshTokenFamily` on the stores.
  abbrev pub revoked_tokens : String → Tokens
  revoked_tokens family_id =
      let records = get_each now (SetStore.members now family_id families).0 tokens in
      set_revoked now records.0 records.1

  pub revoked_bounded :
      (family_id : String) (k : String) (e : Entry RefreshToken)
      → view (revoked_tokens family_id) now k ≡ some e
      → e.expires_at ≤ now + ttl
  revoked_bounded family_id k e p =
      let keys = (SetStore.members now family_id families).0 in
      let records = get_each now keys tokens in
      elim (set_revoked_bounded now now k (omega arith) records.0 records.1 e p) [
        | inl kept ↦ tr.bounded k e (rw (view-get_each now now k (omega arith) keys tokens) at kept)
        | inr short ↦ short
      ]

  -- What is active after a revocation was there before and is of another family.
  pub revoked_active :
      (family_id : String) (t : ℕ) (k : String) (e : Entry RefreshToken)
      → now ≤ t
      → view (revoked_tokens family_id) t k ≡ some e
      → is_active e.value.status ≡ true
      → (view tokens t k ≡ some e) × (e.value.family_id ≢ family_id)
  revoked_active family_id t k e h p a =
      let keys = (SetStore.members now family_id families).0 in
      let records = get_each now keys tokens in
      let (after_get, unwritten) = set_revoked_active now t k h records.0 records.1 e p a in
      let before = rw (view-get_each now t k h keys tokens) at after_get in
      let held = tr.found k e (view_mono tokens now t k e h before) a in
      (
        before,
        λ same.
            let c : contains k keys ≡ true =
              rw (SetView.members_lem now family_id families, ← same)
                (Holds-contains _ k e.expires_at held) in
            cc (
              unwritten,
              get_each_finds now k keys tokens e c (view_mono tokens now t k e h before),
            ),
      )

pub view-lt :
    (s : Tokens) (t : ℕ) (k : String) (e : Entry RefreshToken)
    → view s t k ≡ some e
    → t < e.expires_at
unfolding view
view-lt s t k e p = ground arith

Holds-later :
    (now t : ℕ) (o : Option SetEntry) (k : String) (x : ℕ)
    → t < x
    → Holds (SetView.unexpired now o) k x
    → Holds (SetView.unexpired t o) k x
Holds-later now t none k x lt h = absurd h
Holds-later now t (some f) k x lt h = elim (Bool-cases (leb f.expires_at now)) [
  | inl gone ↦ absurd (rw gone at h)
  | inr here ↦
      let h' : Holds (some f) k x = rw here at h in
      let alive : leb f.expires_at t ≡ false = ground arith in rw alive h'
]

Holds-add_member :
    (o : Option SetEntry) (key k : String) (t x : ℕ)
    → t ≤ x
    → ((key == k) ≡ true) ⊎ Holds o k t
    → Holds (some (record { members = add_member key (members_of o); expires_at = x })) k t
Holds-add_member o key k t x le h =
    (ground (arith, contains-add_member k key (members_of o), Holds-contains o k t), le)

Holds-add :
    (now : ℕ) (families : MemorySetStore) (family_id j key k : String) (t : ℕ)
    → (family_id == j) ≡ true
    → t ≤ now + ttl
    → ((key == k) ≡ true) ⊎ Holds (SetView.view families now family_id) k t
    → Holds (SetView.view (SetStore.add now family_id key ttl families) now j) k t
Holds-add now families family_id j key k t same le h =
    let alive : leb (now + ttl) now ≡ false = ground arith in
    rw (SetView.view-add now now family_id j families (omega arith) key ttl, same, alive)
      (Holds-add_member (SetView.view families now family_id) key k t (now + ttl) le h)

module _ {now : ℕ} {tokens : Tokens} {families : MemorySetStore}
    (tr : IsTracked now tokens families) where
  pub IsTracked-later : (t : ℕ) → now ≤ t → IsTracked t tokens families
  unfolding view SetView.view
  IsTracked-later t h = record {
    found = λ k e p a.
        Holds-later now t (families.sets e.value.family_id) k e.expires_at (view-lt tokens t k e p)
          (tr.found k e (view_mono tokens now t k e h p) a);
    bounded = λ k e p. ground (arith, tr.bounded k e (view_mono tokens now t k e h p));
  }

  -- Writes that bring in no active token.
  pub IsTracked-tokens :
      (tokens' : Tokens)
      → ((k : String) (e : Entry RefreshToken)
          → view tokens' now k ≡ some e
          → is_active e.value.status ≡ true
          → view tokens now k ≡ some e)
      → ((k : String) (e : Entry RefreshToken)
          → view tokens' now k ≡ some e
          → e.expires_at ≤ now + ttl)
      → IsTracked now tokens' families
  IsTracked-tokens tokens' kept short = record {
    found = λ k e p a. tr.found k e (kept k e p a) a;
    bounded = short;
  }

  pub IsTracked-families :
      (families' : MemorySetStore)
      → ((k : String) → SetView.view families' now k ≡ SetView.view families now k)
      → IsTracked now tokens families'
  IsTracked-families families' same = record {
    found = λ k e p a. rw same (tr.found k e p a);
    bounded = tr.bounded;
  }

  pub IsTracked-set_token :
      (key : String) (token : RefreshToken)
      → is_active token.status ≡ false
      → IsTracked now (set_token now key token tokens) families
  unfolding set_token
  IsTracked-set_token key token inactive =
      IsTracked-tokens _
        (λ k e p a. ground (arith, view-set now now key k tokens (omega arith) token ttl))
        (λ k e p.
          ground (arith, view-set now now key k tokens (omega arith) token ttl, tr.bounded k e))

  -- A new token, whose key goes into its family's set at the same time.
  pub IsTracked-add :
      (key : String) (token : RefreshToken)
      → IsTracked now
          (set_token now key token tokens)
          (SetStore.add now token.family_id key ttl families)
  unfolding set_token
  IsTracked-add key token = record {
    found = λ k e p a.
        let set_at = view-set now now key k tokens (omega arith) token ttl in
        let short : e.expires_at ≤ now + ttl = ground (arith, set_at, tr.bounded k e) in
        elim (Bool-cases (key == k)) [
          | inl this ↦
              let own : (token.family_id == e.value.family_id) ≡ true =
                ground (arith, set_at, eq_iff token.family_id e.value.family_id) in
              Holds-add now families token.family_id e.value.family_id key k e.expires_at own short
                (inl this)
          | inr other ↦
              let held = tr.found k e (ground (arith, set_at)) a in
              elim (Bool-cases (token.family_id == e.value.family_id)) [
                | inl same ↦
                    Holds-add now families token.family_id e.value.family_id key k e.expires_at same
                      short (inr (rw ((eq_iff _ _).0 same) held))
                | inr differs ↦
                    rw
                      (
                        SetView.view-add now now token.family_id e.value.family_id families
                            (omega arith) key ttl,
                        differs,
                      )
                      held
              ]
        ];
    bounded = λ k e p.
        ground (arith, view-set now now key k tokens (omega arith) token ttl, tr.bounded k e);
  }
