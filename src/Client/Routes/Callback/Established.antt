-- ===== src/Client/Routes/Callback/Established.antt =====
-- What a callback that starts a session has been given.
use multi_domain_sandbox.Prelude.{
  String, ◌≡◌, refl, sym, arith, Option, none, some, true, false, Result, ok, err, ◌==◌, ◌⊎◌, ap,
  eq_iff, Bool-cases, inl, inr,
}
use multi_domain_sandbox.Shared.KvStore
use multi_domain_sandbox.Shared.KvStore.{value_of}
use multi_domain_sandbox.Shared.KvStore.View
use multi_domain_sandbox.Client.Types.{OidcClientConfig, PreAuthState, TokenResponse}
use multi_domain_sandbox.Client.State.{ClientState, RandomBytes}
use multi_domain_sandbox.Client.Access.{ProviderError}
use multi_domain_sandbox.Client.Routes.{
  IdClaims, Provider, CallbackQuery, Reply, redirect, written, pre_auth_key,
}
use multi_domain_sandbox.Client.Routes.Callback.{
  is_value, is_absent_or, start_session, with_subject, with_claims, with_id_token, with_tokens,
  with_code, with_error, with_pre_auth, take_pre_auth, callback,
}

is_absent_or-cases :
    (expected : String) (o : Option String)
    → is_absent_or expected o ≡ true
    → (o ≡ none) ⊎ (o ≡ some expected)
is_absent_or-cases expected none h = inl refl
is_absent_or-cases expected (some value) h = inr (ap some (ground (arith, eq_iff value expected)))

module _ (random : RandomBytes) (provider : Provider) (client : OidcClientConfig) where
  -- An ID token that the provider vouches for, of this login and of this tenant.
  pub record Vouched (pre_auth : PreAuthState) (tokens : TokenResponse) (s : ClientState)
      : Type 0 where
    pub id_token : String
    pub has_token : tokens.id_token ≡ some id_token
    pub claims : IdClaims
    pub verified : (provider.verify_id_token id_token client pre_auth.nonce s).0 ≡ ok claims
    pub sub : String
    pub has_sub : claims.sub ≡ some sub
    pub sid : String
    pub has_sid : claims.sid ≡ some sid
    pub tenant_id : String
    pub has_tenant : claims.tenant_id ≡ some tenant_id
    pub own_tenant : claims.tenant_slug ≡ some client.tenant_slug

  -- A code that the provider has exchanged against this login's verifier.
  pub record Exchanged (query : CallbackQuery) (pre_auth : PreAuthState) (s : ClientState)
      : Type 0 where
    pub code : String
    pub has_code : query.code ≡ some code
    pub nonempty : (code == "") ≡ false
    pub tokens : TokenResponse
    pub exchanged : (provider.exchange_code client code pre_auth.code_verifier s).0 ≡ ok tokens
    pub vouched :
        Vouched pre_auth tokens (provider.exchange_code client code pre_auth.code_verifier s).1

  -- A login that this browser began at this tenant, whose state the answer carries.
  pub record Established (query : CallbackQuery) (pre_auth_cookie : Option String) (reply : Reply)
      (s : ClientState) : Type 0 where
    pub id : String
    pub has_cookie : pre_auth_cookie ≡ some id
    pub pre_auth : PreAuthState
    pub begun : value_of (View.view s.pre_auth s.now (pre_auth_key client id)) ≡ some pre_auth
    pub same_state : query.state ≡ some pre_auth.state
    pub same_issuer : (query.iss ≡ none) ⊎ (query.iss ≡ some provider.issuer)
    pub no_error : query.error ≡ none
    pub granted : Exchanged query pre_auth (take_pre_auth random provider client (some id) s).1
    pub sent_to : reply ≡ redirect pre_auth.return_to

  is_value-some : (x : String) (o : Option String) → is_value x o ≡ true → o ≡ some x
  is_value-some x none h = ground arith
  is_value-some x (some y) h = ground (arith, eq_iff y x)

  module _ (pre_auth : PreAuthState) (session_cookie : Option String) (x : String) where
    subject-written :
        (tokens : TokenResponse) (claims : IdClaims) (sub sid tenant_id : Option String)
        (s : ClientState)
        → let response =
            (with_subject random provider client pre_auth session_cookie tokens claims sub sid
              tenant_id s).0 in
          response.session_cookie ≡ written x
          → (claims.tenant_slug ≡ some client.tenant_slug)
            × ((u : String) × ((v : String) × ((w : String) × ((sub ≡ some u)
                      × ((sid ≡ some v)
                          × ((tenant_id ≡ some w)
                              × (response.reply ≡ redirect pre_auth.return_to)))))))
    unfolding with_subject start_session
    subject-written tokens claims none sid tenant_id s h = ground arith
    subject-written tokens claims (some sub) none tenant_id s h = ground arith
    subject-written tokens claims (some sub) (some sid) none s h = ground arith
    subject-written tokens claims (some sub) (some sid) (some tenant_id) s h =
        elim (Bool-cases (is_value client.tenant_slug claims.tenant_slug)) [
          | inl e ↦ (
            is_value-some client.tenant_slug claims.tenant_slug e,
            (sub, (sid, (tenant_id, (refl, (refl, (refl, rw e refl)))))),
          )
          | inr e ↦ let q = rw e at h in ground arith
        ]

    claims-written :
        (tokens : TokenResponse) (id_token : String) (s : ClientState)
        → tokens.id_token ≡ some id_token
        → (answer : Result IdClaims ProviderError)
        → (provider.verify_id_token id_token client pre_auth.nonce s).0 ≡ answer
        → let response =
            (with_claims random provider client pre_auth session_cookie tokens answer
              (provider.verify_id_token id_token client pre_auth.nonce s).1).0 in
          response.session_cookie ≡ written x
          → Vouched pre_auth tokens s × (response.reply ≡ redirect pre_auth.return_to)
    unfolding with_claims
    claims-written tokens id_token s e (err error) v h = ground arith
    claims-written tokens id_token s e (ok claims) v h =
        let (own, (u, (i, (t, (a, (b, (c, sent))))))) =
          subject-written tokens claims claims.sub claims.sid claims.tenant_id
            (provider.verify_id_token id_token client pre_auth.nonce s).1 h in
        (
          record {
            id_token = id_token;
            has_token = e;
            claims = claims;
            verified = v;
            sub = u;
            has_sub = a;
            sid = i;
            has_sid = b;
            tenant_id = t;
            has_tenant = c;
            own_tenant = own;
          },
          sent,
        )

    token-written :
        (tokens : TokenResponse) (id_token : Option String) (s : ClientState)
        → tokens.id_token ≡ id_token
        → let response =
            (with_id_token random provider client pre_auth session_cookie tokens id_token s).0 in
          response.session_cookie ≡ written x
          → Vouched pre_auth tokens s × (response.reply ≡ redirect pre_auth.return_to)
    unfolding with_id_token
    token-written tokens none s e h = ground arith
    token-written tokens (some id_token) s e h =
        let answer = provider.verify_id_token id_token client pre_auth.nonce s in
        claims-written tokens id_token s e answer.0 refl h

    tokens-written :
        (query : CallbackQuery) (code : String) (s : ClientState)
        → query.code ≡ some code
        → (code == "") ≡ false
        → (answer : Result TokenResponse ProviderError)
        → (provider.exchange_code client code pre_auth.code_verifier s).0 ≡ answer
        → let response =
            (with_tokens random provider client pre_auth session_cookie answer
              (provider.exchange_code client code pre_auth.code_verifier s).1).0 in
          response.session_cookie ≡ written x
          → Exchanged query pre_auth s × (response.reply ≡ redirect pre_auth.return_to)
    unfolding with_tokens
    tokens-written query code s c n (err error) e h = ground arith
    tokens-written query code s c n (ok tokens) e h =
        let (vouched, sent) =
          token-written tokens tokens.id_token
            (provider.exchange_code client code pre_auth.code_verifier s).1 refl h in
        (
          record {
            code = code;
            has_code = c;
            nonempty = n;
            tokens = tokens;
            exchanged = e;
            vouched = vouched;
          },
          sent,
        )

    code-written :
        (query : CallbackQuery) (code : Option String) (s : ClientState)
        → query.code ≡ code
        → let response = (with_code random provider client pre_auth session_cookie code s).0 in
          response.session_cookie ≡ written x
          → Exchanged query pre_auth s × (response.reply ≡ redirect pre_auth.return_to)
    unfolding with_code
    code-written query none s c h = ground arith
    code-written query (some code) s c h = elim (Bool-cases (code == "")) [
      | inl e ↦ let q = rw e at h in ground arith
      | inr e ↦ rw e (
          tokens-written query code s c e
            (provider.exchange_code client code pre_auth.code_verifier s).0 refl (rw e at h))
    ]

  module _ (query : CallbackQuery) (session_cookie : Option String) (x : String) where
    error-written :
        (pre_auth : PreAuthState) (error : Option String) (s : ClientState)
        → let response =
            (with_error random provider client query pre_auth session_cookie error s).0 in
          response.session_cookie ≡ written x
          → (error ≡ none)
            × (Exchanged query pre_auth s × (response.reply ≡ redirect pre_auth.return_to))
    unfolding with_error
    error-written pre_auth none s h =
        (refl, code-written pre_auth session_cookie x query query.code s refl h)
    error-written pre_auth (some error) s h = ground arith

    pre_auth-written :
        (id : String) (s : ClientState) (pre_auth : Option PreAuthState)
        → value_of (View.view s.pre_auth s.now (pre_auth_key client id)) ≡ pre_auth
        → let response =
            (with_pre_auth random provider client query session_cookie pre_auth
              (take_pre_auth random provider client (some id) s).1).0 in
          response.session_cookie ≡ written x → Established query (some id) response.reply s
    unfolding with_pre_auth
    pre_auth-written id s none p h = ground arith
    pre_auth-written id s (some pre_auth) p h =
        elim (Bool-cases (is_value pre_auth.state query.state)) [
          | inr e ↦ let q = rw e at h in ground arith
          | inl e ↦ elim (Bool-cases (is_absent_or provider.issuer query.iss)) [
            | inr f ↦ let q = rw (e, f) at h in ground arith
            | inl f ↦
                let t = (take_pre_auth random provider client (some id) s).1 in
                let (n, (granted, sent)) = error-written pre_auth query.error t (rw (e, f) at h) in
                rw (e, f)
                  (record {
                    id = id;
                    has_cookie = refl;
                    pre_auth = pre_auth;
                    begun = p;
                    same_state = is_value-some pre_auth.state query.state e;
                    same_issuer = is_absent_or-cases provider.issuer query.iss f;
                    no_error = n;
                    granted = granted;
                    sent_to = sent;
                  })
          ]
        ]

    -- A session's cookie is written only to a browser that began this login at this tenant: its state comes
    -- back in the answer, the issuer is not another, the code was exchanged with this login's verifier for an
    -- ID token with this login's nonce, of this tenant; and it is sent where the login said.
    pub callback-Established :
        (pre_auth_cookie : Option String) (s : ClientState)
        → let response =
            (callback random provider client query pre_auth_cookie session_cookie s).0 in
          response.session_cookie ≡ written x → Established query pre_auth_cookie response.reply s
    unfolding callback take_pre_auth with_pre_auth
    callback-Established none s h = ground arith
    callback-Established (some id) s h =
        pre_auth-written id s (KvStore.get_and_delete s.now (pre_auth_key client id) s.pre_auth).0
          (sym (View.get_and_delete_lem s.now (pre_auth_key client id) s.pre_auth)) h
