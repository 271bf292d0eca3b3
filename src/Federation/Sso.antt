-- ===== src/Federation/Sso.antt =====
-- src/modules/auth/sso.service.ts: the login through the identity provider of a tenant. Redis and
-- the OpenID client are parameters; the one-time values that a call draws are arguments.
pub mod Keys
unfoldable pub use Keys.*
use backend_foundation.Prelude.{
  ℕ, ◌==◌, Bool, false, not, String, Option, none, some, List, ◌∷◌, map, or_else, is_some,
  if◌then◌else◌,
}
use backend_foundation.UserAgent.{codes, to_lower}
use backend_foundation.Outbound.{ends_with}
use backend_foundation.Auth.Data.{
  User, Env, Crypto, account_missing, tenant_not_found, remote_failed, sso_not_configured,
  sso_not_active, sso_denied, sso_code_missing, sso_state_invalid, sso_state_mismatch,
  sso_email_missing, sso_domain_refused, sso_other_tenant, sso_exchange_invalid,
}
use backend_foundation.Auth.Monad.{M, pure, throw, ◌>>=◌, ◌>>◌, gets, modify, or_throw}
use backend_foundation.Auth.Users
use backend_foundation.Auth.Refresh.{TokenPair, issue_tokens_for_user, non_empty}
use backend_foundation.Gate.Tenants.{Tenant, find_tenant_by_slug}
use backend_foundation.Federation.{
  Federation, SsoConnection, SsoIdentity, find_connection, find_identity, create_identity,
  on_database,
}
use backend_foundation.Federation.Oauth.{user_by_email}

module _ {R S : Type 0} where
  -- SsoConnectionService.
  unfoldable pub find_tenant_or_throw : String → M (Federation R S) Tenant
  find_tenant_or_throw slug = do
    found ← gets (λ s. find_tenant_by_slug slug s.tenants)
    or_throw found tenant_not_found

  unfoldable pub upsert_connection : SsoConnection → M (Federation R S) SsoConnection
  unfolding find_connection
  upsert_connection row = do
    existing ← gets (find_connection row.tenant_id)
    modify (λ s. record s {
      sso_connections =
          if is_some existing
          then map (λ c. if c.tenant_id == row.tenant_id then row else c) s.sso_connections
          else row ∷ s.sso_connections;
    })
    pure row

  unfoldable pub upsert : Crypto → String → SsoInput → M (Federation R S) SsoConnection
  unfolding find_tenant_or_throw upsert_connection
  upsert crypto slug input = do
    tenant ← find_tenant_or_throw slug
    upsert_connection (record {
      tenant_id = tenant.id;
      issuer_url = input.issuer_url;
      client_id = input.client_id;
      client_secret_encrypted = crypto.encrypt input.client_secret;
      allowed_email_domain = map to_lower (codes input.allowed_email_domain);
      enabled = input.enabled;
    })

  unfoldable pub get : String → M (Federation R S) (Option SsoConnection)
  unfolding find_tenant_or_throw
  get slug = do tenant ← find_tenant_or_throw slug; gets (find_connection tenant.id)

  -- A missing connection and one that is turned off are refused alike.
  unfoldable pub assert_enabled : Option SsoConnection → M (Federation R S) SsoConnection
  assert_enabled none = throw sso_not_active
  assert_enabled (some c) = if c.enabled then pure c else throw sso_not_active

  unfoldable pub get_active_connection_or_throw : String → M (Federation R S) SsoConnection
  unfolding find_tenant_or_throw assert_enabled
  get_active_connection_or_throw slug = do
    tenant ← find_tenant_or_throw slug
    found ← gets (find_connection tenant.id)
    assert_enabled found

  -- The redirect URI of a tenant, by the base URL and the slug that it is made of.
  unfoldable pub build_redirect_uri : Option String → String → M (Federation R S) (String × String)
  build_redirect_uri base_url slug = do
    base ← or_throw (non_empty base_url) sso_not_configured
    pure (base, slug)

  unfoldable pub build_oidc_client :
      Oidc → Crypto → SsoConnection → String × String → M (Federation R S) OidcClient
  build_oidc_client oidc crypto c uri =
      if oidc.discover c.issuer_url
      then pure (record {
        issuer_url = c.issuer_url;
        client_id = c.client_id;
        client_secret = crypto.decrypt c.client_secret_encrypted;
        redirect_uri = uri;
      })
      else throw remote_failed

  unfoldable pub new_identity :
      Env → ℕ → ℕ → String → String → Option User → M (Federation R S) User
  unfolding create_identity user_by_email
  new_identity env tenant_id subject email name known = do
    u ← user_by_email env email name known
    create_identity (record { tenant_id = tenant_id; subject = subject; user_id = u.id })
    pure u

  unfoldable pub identified_user :
      Option SsoIdentity → Env → ℕ → ℕ → String → String → M (Federation R S) User
  unfolding new_identity
  identified_user (some identity) env tenant_id subject email name = do
    found ← gets (λ s. Users.find_by_id identity.user_id s.database)
    or_throw found account_missing
  identified_user none env tenant_id subject email name = do
    known ← gets (λ s. Users.find_by_email email s.database)
    if in_other_tenant tenant_id (tenant_of known)
        then throw sso_other_tenant
        else new_identity env tenant_id subject email name known

  unfoldable pub find_or_provision_user : Env → ℕ → ℕ → String → String → M (Federation R S) User
  unfolding identified_user
  find_or_provision_user env tenant_id subject email name = do
    existing ← gets (find_identity tenant_id subject)
    identified_user existing env tenant_id subject email name

  module _ (crypto : Crypto) where
    -- In the context of the tenant, which new rows of users take their tenant from.
    unfoldable pub admit_claims :
        SsoRedis R S → Env → ℕ → SsoConnection → IdClaims → String → M (Federation R S) ℕ
    unfolding find_or_provision_user set_exchange
    admit_claims api env exchange_code connection claims email = do
      let inside = record env { tenant_id = some connection.tenant_id }
      u ←
          find_or_provision_user inside connection.tenant_id claims.sub email
            (or_else claims.name email)
      pair ← on_database (issue_tokens_for_user crypto inside u none)
      set_exchange api env.now exchange_code pair
      pure exchange_code

    unfoldable pub check_claims :
        SsoRedis R S → Env → ℕ → SsoConnection → IdClaims → M (Federation R S) ℕ
    unfolding admit_claims
    check_claims api env exchange_code connection claims = do
      email ← or_throw (non_empty claims.email) sso_email_missing
      if in_domain connection.allowed_email_domain email
          then admit_claims api env exchange_code connection claims email
          else throw sso_domain_refused

  module _ (base_url : Option String) (oidc : Oidc) (crypto : Crypto) where
    unfoldable pub callback_with_state :
        SsoRedis R S → Env → ℕ → String → String → ℕ → StateData → M (Federation R S) ℕ
    unfolding get_active_connection_or_throw build_redirect_uri build_oidc_client check_claims
    callback_with_state api env exchange_code slug code state kept = do
      connection ← get_active_connection_or_throw slug
      if kept.tenant_id == connection.tenant_id then pure tt else throw sso_state_mismatch
      uri ← build_redirect_uri base_url slug
      client ← build_oidc_client oidc crypto connection uri
      claims ←
          or_throw (oidc.callback client code state kept.nonce kept.code_verifier) remote_failed
      check_claims crypto api env exchange_code connection claims

  module _ (redis : Option (SsoRedis R S)) (base_url : Option String) (oidc : Oidc)
      (crypto : Crypto) where
    unfoldable pub build_authorization_url : ℕ → Draw → String → M (Federation R S) String
    unfolding get_active_connection_or_throw build_redirect_uri build_oidc_client set_state
    build_authorization_url now draw slug = do
      api ← or_throw redis sso_not_configured
      connection ← get_active_connection_or_throw slug
      uri ← build_redirect_uri base_url slug
      client ← build_oidc_client oidc crypto connection uri
      set_state api now draw.state (record {
        tenant_id = connection.tenant_id;
        nonce = draw.nonce;
        code_verifier = draw.code_verifier;
      })
      pure (
          oidc.authorization_url client draw.state draw.nonce
            (oidc.code_challenge draw.code_verifier))

    -- The state is taken, whatever comes of it.
    unfoldable pub handle_callback : Env → ℕ → String → CallbackQuery → M (Federation R S) ℕ
    unfolding callback_with_state take_state
    handle_callback env exchange_code slug query = do
      api ← or_throw redis sso_not_configured
      if is_some (non_empty query.error) then throw sso_denied else pure tt
      code ← or_throw (non_empty query.code) sso_code_missing
      found ← take_state api env.now query.state
      kept ← or_throw found sso_state_invalid
      callback_with_state base_url oidc crypto api env exchange_code slug code query.state kept

  unfoldable pub consume : Option (SsoRedis R S) → ℕ → ℕ → M (Federation R S) TokenPair
  unfolding take_exchange
  consume redis now code = do
    api ← or_throw redis sso_not_configured
    found ← take_exchange api now code
    or_throw found sso_exchange_invalid
