-- ===== src/Federation/SsoLogin.antt =====
-- src/modules/auth/sso.service.ts: what a callback of an identity provider that ends in an exchange
-- code has checked.
use backend_foundation.Prelude.{
  ℕ, ◌==◌, ==_iff, ◌≡◌, refl, sym, ap, subst, ◌∙◌, inl, inr, true, String, Option, none, some,
  Option-cases, Bool-cases,
}
use backend_foundation.Auth.Data.{Env, Crypto}
use backend_foundation.Auth.Monad.{Result, ok}
use backend_foundation.Auth.Refresh.{non_empty}
use backend_foundation.Gate.Tenants.{Tenant, find_tenant_by_slug}
use backend_foundation.Federation.{Federation, SsoConnection, find_connection}
use backend_foundation.Federation.Sso.{
  StateData, reply, SsoRedis, IdClaims, Oidc, in_domain, get_active_connection_or_throw,
  CallbackQuery, build_redirect_uri, build_oidc_client, check_claims, callback_with_state,
  handle_callback,
}
use backend_foundation.Federation.StateOnce.{callback-enters}
use backend_foundation.Federation.SsoLaws.{cont-ok, active-ok}
use backend_foundation.Federation.Admission.{client_of, Admitted, admit_claims-ok}

-- What a callback that succeeds rests on: a state of the same tenant, an enabled connection, the
-- claims that the provider gives for that state's nonce and verifier, and an email of the domain.
pub record SsoProof {R S : Type 0} (api : SsoRedis R S) (base_url : Option String) (oidc : Oidc)
    (crypto : Crypto) (env : Env) (code : ℕ) (slug given : String) (state : ℕ) (kept : StateData)
    (s after : Federation R S) : Type 0 where
  pub tenant : Tenant
  pub connection : SsoConnection
  pub base : String
  pub claims : IdClaims
  pub email : String
  pub tenant_found : find_tenant_by_slug slug s.tenants ≡ some tenant
  pub connection_found : find_connection tenant.id s ≡ some connection
  pub enabled : connection.enabled ≡ true
  pub same_tenant : kept.tenant_id ≡ connection.tenant_id
  pub answered :
      oidc.callback
        (client_of crypto connection (base, slug))
        given
        state
        kept.nonce
        kept.code_verifier
      ≡ some claims
  pub has_email : non_empty claims.email ≡ some email
  pub domain_allowed : in_domain connection.allowed_email_domain email ≡ true
  pub admitted : Admitted crypto api env code connection claims email s after

module _ {R S : Type 0} (api : SsoRedis R S) (base_url : Option String) (oidc : Oidc)
    (crypto : Crypto) (env : Env) (code : ℕ) (slug : String) where
  check_claims-ok :
      (c : SsoConnection) (claims : IdClaims) (s : Federation R S) {n : ℕ}
      → (check_claims crypto api env code c claims s).0 ≡ ok n
      → (n ≡ code)
        × ((email : String) × (non_empty claims.email ≡ some email)
            × (in_domain c.allowed_email_domain email ≡ true)
            × Admitted crypto api env code c claims email s
                (check_claims crypto api env code c claims s).1)
  unfolding check_claims
  check_claims-ok c claims s h = elim (Option-cases (non_empty claims.email)) [
    | inl e ↦ absurd (cc (rw e at h))
    | inr (email, e) ↦ elim (Bool-cases (in_domain c.allowed_email_domain email)) [
      | inr f ↦ absurd (cc (rw (e, f) at h))
      | inl f ↦
          let (same, done) =
            admit_claims-ok crypto api env code c claims email s (rw (e, f) at h) in
          (same, (email, e, f, rw (e, f) done))
    ]
  ]

  with_state-checks :
      (given : String) (state : ℕ) (kept : StateData) (s : Federation R S) (c : SsoConnection)
      (base : String) (claims : IdClaims)
      → (get_active_connection_or_throw slug s).0 ≡ ok c
      → (get_active_connection_or_throw slug s).1 ≡ s
      → (kept.tenant_id == c.tenant_id) ≡ true
      → non_empty base_url ≡ some base
      → oidc.discover c.issuer_url ≡ true
      → oidc.callback (client_of crypto c (base, slug)) given state kept.nonce kept.code_verifier
        ≡ some claims
      → callback_with_state base_url oidc crypto api env code slug given state kept s
        ≡ check_claims crypto api env code c claims s
  unfolding callback_with_state build_redirect_uri build_oidc_client
  with_state-checks given state kept s c base claims m same e b d f = rw (m, same, e, b, d, f) refl

  callback_with_state-ok :
      (given : String) (state : ℕ) (kept : StateData) (s : Federation R S) {n : ℕ}
      → (callback_with_state base_url oidc crypto api env code slug given state kept s).0 ≡ ok n
      → (n ≡ code)
        × SsoProof api base_url oidc crypto env code slug given state kept s
            (callback_with_state base_url oidc crypto api env code slug given state kept s).1
  unfolding callback_with_state build_redirect_uri build_oidc_client
  callback_with_state-ok given state kept s h =
      let (c, m, rest) = cont-ok _ (get_active_connection_or_throw slug s) h in
      let (t, et, ec, en, same) = active-ok slug s m in
      elim (Bool-cases (kept.tenant_id == c.tenant_id)) [
        | inr e ↦ absurd (cc (rw (m, same, e) at h))
        | inl e ↦ elim (Option-cases (non_empty base_url)) [
          | inl b ↦ absurd (cc (rw (m, same, e, b) at h))
          | inr (base, b) ↦ elim (Bool-cases (oidc.discover c.issuer_url)) [
            | inr d ↦ absurd (cc (rw (m, same, e, b, d) at h))
            | inl d ↦
                elim (Option-cases (
                  oidc.callback (client_of crypto c (base, slug)) given state kept.nonce
                    kept.code_verifier)) [
                      | inl f ↦ absurd (cc (rw (m, same, e, b, d, f) at h))
                      | inr (claims, f) ↦
                          let checks =
                            with_state-checks given state kept s c base claims m same e b d f in
                          let (is, (email, has, allowed, done)) =
                            check_claims-ok c claims s (cc (checks, h)) in
                          (
                            is,
                            record {
                              tenant = t;
                              connection = c;
                              base = base;
                              claims = claims;
                              email = email;
                              tenant_found = et;
                              connection_found = ec;
                              enabled = en;
                              same_tenant = (==_iff _ _).0 e;
                              answered = f;
                              has_email = has;
                              domain_allowed = allowed;
                              admitted =
                                  subst
                                    (λ (r : Result ℕ × Federation R S).
                                      Admitted crypto api env code c claims email s r.1)
                                    (sym checks) done;
                            },
                          )
                    ]
          ]
        ]
      ]

  -- A callback of an identity provider ends in an exchange code only if: its query has a code and
  -- no error, Redis held the state, which was started for the tenant of the path; that tenant exists
  -- and its connection is turned on; the provider answered the code with claims for the state's
  -- nonce and verifier, whose email is of the allowed domain; and the tokens kept under the code
  -- are those of `issueTokensForUser`, in the tenant's context, for the user that the tenant's
  -- subject is linked to, else one with that email who is in no other tenant, else a new one.
  pub sso_needs_proof :
      (query : CallbackQuery) (s : Federation R S) {n : ℕ}
      → (handle_callback (some api) base_url oidc crypto env code slug query s).0 ≡ ok n
      → (n ≡ code)
        × ((given : String) × (kept : StateData) × (non_empty query.error ≡ none)
            × (non_empty query.code ≡ some given)
            × ((api.states.get_del env.now query.state s.states).0 ≡ reply (some kept))
            × SsoProof api base_url oidc crypto env code slug given query.state kept
                (record s { states = (api.states.get_del env.now query.state s.states).1 })
                (handle_callback (some api) base_url oidc crypto env code slug query s).1)
  sso_needs_proof query s {n} h =
      let entered = callback-enters api base_url oidc crypto env code slug query s h in
      let (is, proof) =
        callback_with_state-ok entered.given query.state entered.kept
          (record s { states = (api.states.get_del env.now query.state s.states).1 })
          (ap (λ (r : Result ℕ × Federation R S). r.0) (sym entered.rest) ∙ h) in
      (
        is,
        (
          entered.given,
          entered.kept,
          entered.no_error,
          entered.has_code,
          entered.state_known,
          subst
              (λ (r : Result ℕ × Federation R S).
                SsoProof api base_url oidc crypto env code slug entered.given query.state
                  entered.kept
                  (record s { states = (api.states.get_del env.now query.state s.states).1 }) r.1)
              (sym entered.rest) proof,
        ),
      )
