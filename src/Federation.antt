-- ===== src/Federation.antt =====
-- src/modules/auth: logins proved by someone else, with oauth.service.ts (Google and GitHub) and
-- sso.service.ts (the identity provider of a tenant). The state is the database of Auth with the
-- tables OAuthAccount, SsoConnection, SsoIdentity and Tenant, and the one-time keys in Redis.
-- Account ids of providers and subjects are numbers that are only compared for equality.
pub mod Oauth
pub mod Sso
pub mod Moves
pub mod SsoMoves
pub mod SsoCalls
pub mod Histories
pub mod Links
pub mod Accounts
pub mod OneTime
pub mod StateOnce
pub mod SsoLaws
pub mod Admission
pub mod SsoLogin
pub mod Apart
pub mod Tenancy
pub mod OauthLaws
pub mod Sample
mod Tests
use backend_foundation.Prelude.{
  ℕ, Bool, true, false, ◌==◌, ◌&&◌, String, Option, List, ◌∷◌, find, is_some,
}
use backend_foundation.Auth.Data.{AuthError, Database, unique_violation}
use backend_foundation.Auth.Monad.{M, Result, modify_unless}
use backend_foundation.Gate.Tenants.{Tenant}

pub data OauthProviderName : Type 0 where
  google github : OauthProviderName

pub record OauthAccount : Type 0 where
  pub provider : OauthProviderName
  pub provider_account_id : ℕ
  pub user_id : ℕ

pub record SsoConnection : Type 0 where
  pub tenant_id : ℕ
  pub issuer_url : String
  pub client_id : String
  pub client_secret_encrypted : ℕ
  pub allowed_email_domain : List ℕ
  pub enabled : Bool

pub record SsoIdentity : Type 0 where
  pub tenant_id : ℕ
  pub subject : ℕ
  pub user_id : ℕ

-- `R` holds the keys `sso:state:…`, `S` the keys `sso:exchange:…`.
pub record Federation (R S : Type 0) : Type 0 where
  pub database : Database
  pub oauth_accounts : List OauthAccount
  pub tenants : List Tenant
  pub sso_connections : List SsoConnection
  pub sso_identities : List SsoIdentity
  pub states : R
  pub exchange_codes : S

abbrev pub same_provider : OauthProviderName → OauthProviderName → Bool
same_provider google google = true
same_provider github github = true
same_provider _ _ = false

module _ {R S : Type 0} where
  abbrev pub with_database {ℓ} :
      {A : Type ℓ} → Federation R S → Result A × Database → Result A × Federation R S
  with_database s (r, db) = (r, record s { database = db })

  -- A call on the database of Auth alone.
  abbrev pub on_database {ℓ} : {A : Type ℓ} → M Database A → M (Federation R S) A
  on_database m s = with_database s (m s.database)

  -- AuthRepository.findOAuthAccount and createOAuthAccount: a provider and its id of the account are
  -- a unique key.
  unfoldable pub find_oauth_account : OauthProviderName → ℕ → Federation R S → Option OauthAccount
  find_oauth_account provider id s =
      find (λ a. same_provider a.provider provider && a.provider_account_id == id) s.oauth_accounts

  unfoldable pub create_oauth_account : OauthAccount → M (Federation R S) (Unit {0})
  unfolding find_oauth_account
  create_oauth_account row s =
      modify_unless (is_some (find_oauth_account row.provider row.provider_account_id s))
        unique_violation (λ f. record f { oauth_accounts = row ∷ f.oauth_accounts }) s

  -- SsoConnectionRepository.findByTenantId.
  unfoldable pub find_connection : ℕ → Federation R S → Option SsoConnection
  find_connection tenant_id s = find (λ c. c.tenant_id == tenant_id) s.sso_connections

  -- SsoIdentityRepository: a tenant and a subject are a unique key.
  unfoldable pub find_identity : ℕ → ℕ → Federation R S → Option SsoIdentity
  find_identity tenant_id subject s =
      find (λ i. i.tenant_id == tenant_id && i.subject == subject) s.sso_identities

  unfoldable pub create_identity : SsoIdentity → M (Federation R S) (Unit {0})
  unfolding find_identity
  create_identity row s =
      modify_unless (is_some (find_identity row.tenant_id row.subject s)) unique_violation
        (λ f. record f { sso_identities = row ∷ f.sso_identities }) s
