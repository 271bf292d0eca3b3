-- ===== src/Federation/SsoCalls.antt =====
-- src/modules/auth/sso.service.ts: the calls of SsoService as chains of single changes.
use backend_foundation.Prelude.{ℕ, String, Option, some, is_some, or_else, ◌==◌}
use backend_foundation.Auth.Data.{
  Env, Crypto, remote_failed, sso_denied, sso_code_missing, sso_state_invalid, sso_state_mismatch,
  sso_email_missing, sso_domain_refused, sso_exchange_invalid,
}
use backend_foundation.Auth.Refresh.{non_empty}
use backend_foundation.Federation.{Federation, SsoConnection}
use backend_foundation.Federation.Sso.{
  StateData, SsoRedis, Oidc, Draw, CallbackQuery, IdClaims, in_domain, build_authorization_url,
  admit_claims, check_claims, callback_with_state, handle_callback, consume,
}
use backend_foundation.Federation.Moves.{
  Respects, across-bind, across-pure, across-throw, across-or_throw, across-if, across-issue,
}
use backend_foundation.Federation.SsoMoves.{
  ClosedSso, across-active, across-uri, across-client, across-set_state, across-set_exchange,
  across-take_state, across-take_exchange, across-provision,
}

module _ {R S : Type 0} (api : SsoRedis R S) where
  module _ (States Codes : ℕ → Type 0) (Q : Federation R S → Federation R S → Type 0)
      (c : ClosedSso api States Codes Q) where
    module _ (base_url : Option String) (oidc : Oidc) (crypto : Crypto) where
      pub across-authorize :
          (now : ℕ) (draw : Draw) (slug : String)
          → States draw.state
          → Respects Q (build_authorization_url (some api) base_url oidc crypto now draw slug)
      unfolding build_authorization_url
      across-authorize now draw slug allowed =
          across-bind Q c.closed _ _ (across-active api States Codes Q c slug) (λ connection.
            across-bind Q c.closed _ _ (across-uri api States Codes Q c base_url slug) (λ uri.
              across-bind Q c.closed _ _
                (across-client api States Codes Q c oidc crypto connection uri)
                (λ client.
                  across-bind Q c.closed _ _
                    (across-set_state api States Codes Q c now draw.state
                      (record {
                        tenant_id = connection.tenant_id;
                        nonce = draw.nonce;
                        code_verifier = draw.code_verifier;
                      })
                      allowed)
                    (λ done. across-pure Q c.closed (
                      oidc.authorization_url client draw.state draw.nonce
                        (oidc.code_challenge draw.code_verifier))))))

      across-admit :
          (env : Env) (code : ℕ) (connection : SsoConnection) (claims : IdClaims) (email : String)
          → Codes code
          → Respects Q (admit_claims crypto api env code connection claims email)
      unfolding admit_claims
      across-admit env code connection claims email allowed =
          let inside = record env { tenant_id = some connection.tenant_id } in
          across-bind Q c.closed _ _
            (across-provision api States Codes Q c inside connection.tenant_id claims.sub email
              (or_else claims.name email))
            (λ u. across-bind Q c.closed _ _ (across-issue Q c.closed crypto inside u) (λ pair.
              across-bind Q c.closed _ _
                (across-set_exchange api States Codes Q c env.now code pair allowed)
                (λ done. across-pure Q c.closed code)))

      across-check :
          (env : Env) (code : ℕ) (connection : SsoConnection) (claims : IdClaims)
          → Codes code
          → Respects Q (check_claims crypto api env code connection claims)
      unfolding check_claims
      across-check env code connection claims allowed =
          across-bind Q c.closed _ _
            (across-or_throw Q c.closed (non_empty claims.email) sso_email_missing)
            (λ email.
              across-if Q c.closed (in_domain connection.allowed_email_domain email) _ _
                (across-admit env code connection claims email allowed)
                (across-throw Q c.closed ℕ sso_domain_refused))

      pub across-with_state :
          (env : Env) (code : ℕ) (slug given : String) (state : ℕ) (kept : StateData)
          → Codes code
          → Respects Q (callback_with_state base_url oidc crypto api env code slug given state kept)
      unfolding callback_with_state
      across-with_state env code slug given state kept allowed =
          across-bind Q c.closed _ _ (across-active api States Codes Q c slug) (λ connection.
            across-bind Q c.closed _ _
              (across-if Q c.closed (kept.tenant_id == connection.tenant_id) _ _
                (across-pure Q c.closed tt) (across-throw Q c.closed (Unit {0}) sso_state_mismatch))
              (λ done.
                across-bind Q c.closed _ _ (across-uri api States Codes Q c base_url slug) (λ uri.
                  across-bind Q c.closed _ _
                    (across-client api States Codes Q c oidc crypto connection uri)
                    (λ client.
                      across-bind Q c.closed _ _
                        (across-or_throw Q c.closed
                          (oidc.callback client given state kept.nonce kept.code_verifier)
                          remote_failed)
                        (λ claims. across-check env code connection claims allowed)))))

      pub across-callback :
          (env : Env) (code : ℕ) (slug : String) (query : CallbackQuery)
          → Codes code
          → Respects Q (handle_callback (some api) base_url oidc crypto env code slug query)
      unfolding handle_callback
      across-callback env code slug query allowed =
          across-bind Q c.closed _ _
            (across-if Q c.closed (is_some (non_empty query.error)) _ _
              (across-throw Q c.closed (Unit {0}) sso_denied) (across-pure Q c.closed tt))
            (λ done.
              across-bind Q c.closed _ _
                (across-or_throw Q c.closed (non_empty query.code) sso_code_missing)
                (λ given.
                  across-bind Q c.closed _ _
                    (across-take_state api States Codes Q c env.now query.state)
                    (λ found.
                      across-bind Q c.closed _ _
                        (across-or_throw Q c.closed found sso_state_invalid)
                        (λ kept. across-with_state env code slug given query.state kept allowed))))

    pub across-consume : (now code : ℕ) → Respects Q (consume (some api) now code)
    unfolding consume
    across-consume now code =
        across-bind Q c.closed _ _ (across-take_exchange api States Codes Q c now code)
          (λ found. across-or_throw Q c.closed found sso_exchange_invalid)
