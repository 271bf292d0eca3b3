-- ===== src/Federation/Oauth.antt =====
-- src/modules/auth/oauth.service.ts. Google's `verifyIdToken` and the answers of GitHub are
-- parameters.
use backend_foundation.Prelude.{
  ℕ, String, Bool, false, ◌&&◌, Option, none, some, List, find, or_else,
}
use backend_foundation.Auth.Data.{
  User, user, Env, Crypto, provider_not_configured, provider_token_invalid, provider_code_invalid,
  provider_profile_failed, provider_email_missing, account_missing, remote_failed,
}
use backend_foundation.Auth.Monad.{M, pure, throw, ◌>>=◌, ◌>>◌, gets, or_throw}
use backend_foundation.Auth.Users
use backend_foundation.Auth.Refresh.{TokenPair, issue_tokens_for_user, non_empty}
use backend_foundation.Federation.{
  Federation, OauthProviderName, google, github, OauthAccount, find_oauth_account,
  create_oauth_account, on_database,
}

-- NormalizedOAuthProfile.
pub record Profile : Type 0 where
  pub provider_account_id : ℕ
  pub email : String
  pub name : String

-- The claims of a Google id_token that are of use for a login.
pub record GooglePayload : Type 0 where
  pub sub : ℕ
  pub email : Option String
  pub email_verified : Option Bool
  pub name : Option String

-- `verifyIdToken` throws, or gives a ticket whose payload may be undefined.
pub data GoogleAnswer : Type 0 where
  refused : GoogleAnswer
  ticket : Option GooglePayload → GoogleAnswer

pub record GithubUserResponse : Type 0 where
  pub id : ℕ
  pub login : String
  pub name : Option String
  pub email : Option String

pub record GithubEmailEntry : Type 0 where
  pub email : String
  pub primary : Bool
  pub verified : Bool

-- A `fetch` throws, or its response is not `ok`, or it has a body.
pub data Reply (A : Type 0) : Type 0 where
  failed : Reply A
  not_ok : Reply A
  body : A → Reply A

-- The answers to the code of a login (the `access_token` of a body, whatever the status, or none
-- where `fetch` throws), and to an access token.
pub record GithubApi : Type 0 where
  pub access_token : String → Option (Option String)
  pub user : String → Reply GithubUserResponse
  pub emails : String → Reply (List GithubEmailEntry)

abbrev pub address_of : Option GithubEmailEntry → Option String
address_of none = none
address_of (some entry) = some entry.email

-- The row of a user that a provider vouches for: no password, and the email proved.
unfoldable pub vouched_user : Env → String → String → User
vouched_user env email name = record {
  id = env.fresh_id;
  email = email;
  password = none;
  name = name;
  role = user;
  email_verified_at = some env.now;
  mfa_enabled = false;
  mfa_secret = none;
  deleted_at = none;
  created_at = env.now;
  tenant_id = env.tenant_id;
}

abbrev pub account_of : OauthProviderName → Profile → User → OauthAccount
account_of provider profile u = record {
  provider = provider;
  provider_account_id = profile.provider_account_id;
  user_id = u.id;
}

module _ {R S : Type 0} where
  unfoldable pub user_by_email : Env → String → String → Option User → M (Federation R S) User
  unfolding vouched_user Users.create
  user_by_email env email name (some u) = pure u
  user_by_email env email name none = do
    on_database (Users.create (vouched_user env email name))
    pure (vouched_user env email name)

  unfoldable pub new_link :
      Env → OauthProviderName → Profile → Option User → M (Federation R S) User
  unfolding user_by_email create_oauth_account
  new_link env provider profile known = do
    u ← user_by_email env profile.email profile.name known
    create_oauth_account (account_of provider profile u)
    pure u

  unfoldable pub linked_user :
      Option OauthAccount → Env → OauthProviderName → Profile → M (Federation R S) User
  unfolding new_link
  linked_user (some account) env provider profile = do
    found ← gets (λ s. Users.find_by_id account.user_id s.database)
    or_throw found account_missing
  linked_user none env provider profile = do
    known ← gets (λ s. Users.find_by_email profile.email s.database)
    new_link env provider profile known

  unfoldable pub find_or_create_user : Env → OauthProviderName → Profile → M (Federation R S) User
  unfolding linked_user
  find_or_create_user env provider profile = do
    existing ← gets (find_oauth_account provider profile.provider_account_id)
    linked_user existing env provider profile

  -- The end of both logins; the services pass no device on.
  unfoldable pub login_with_profile :
      Crypto → Env → OauthProviderName → Profile → M (Federation R S) TokenPair
  unfolding find_or_create_user
  login_with_profile crypto env provider profile = do
    u ← find_or_create_user env provider profile
    on_database (issue_tokens_for_user crypto env u none)

-- What the payload is taken for; `!payload.email` holds of an empty text too.
unfoldable pub google_profile : GoogleAnswer → Option Profile
google_profile refused = none
google_profile (ticket none) = none
google_profile (ticket (some payload)) = elim (non_empty payload.email) [
  | none ↦ none
  | some email ↦ some (record {
    provider_account_id = payload.sub;
    email = email;
    name = or_else payload.name email;
  })
]

module _ {R S : Type 0} where
  -- `verify` is none where GOOGLE_CLIENT_ID is not set.
  unfoldable pub login_with_google :
      Option (String → GoogleAnswer) → Crypto → Env → String → M (Federation R S) TokenPair
  unfolding login_with_profile
  login_with_google none crypto env id_token = throw provider_not_configured
  login_with_google (some verify) crypto env id_token = do
    profile ← or_throw (google_profile (verify id_token)) provider_token_invalid
    login_with_profile crypto env google profile

  unfoldable pub exchange_github_code : GithubApi → String → M (Federation R S) String
  exchange_github_code api code = do
    answer ← or_throw (api.access_token code) remote_failed
    or_throw (non_empty answer) provider_code_invalid

  -- `emails.find((e) => e.primary && e.verified)?.email`
  unfoldable pub primary_email : Reply (List GithubEmailEntry) → M (Federation R S) (Option String)
  primary_email failed = throw remote_failed
  primary_email not_ok = pure none
  primary_email (body entries) = pure (address_of (find (λ e. e.primary && e.verified) entries))

  unfoldable pub github_email :
      GithubApi → String → Option String → M (Federation R S) (Option String)
  unfolding primary_email
  github_email api token (some email) = pure (some email)
  github_email api token none = primary_email (api.emails token)

  unfoldable pub profile_of :
      GithubApi → String → Reply GithubUserResponse → M (Federation R S) Profile
  unfolding github_email
  profile_of api token failed = throw remote_failed
  profile_of api token not_ok = throw provider_profile_failed
  profile_of api token (body github_user) = do
    found ← github_email api token (non_empty github_user.email)
    email ← or_throw (non_empty found) provider_email_missing
    pure (record {
      provider_account_id = github_user.id;
      email = email;
      name = or_else github_user.name github_user.login;
    })

  unfoldable pub fetch_github_profile : GithubApi → String → M (Federation R S) Profile
  unfolding profile_of
  fetch_github_profile api token = profile_of api token (api.user token)

  -- `api` is none where the id or the secret of the client is not set.
  unfoldable pub login_with_github :
      Option GithubApi → Crypto → Env → String → M (Federation R S) TokenPair
  unfolding exchange_github_code fetch_github_profile login_with_profile
  login_with_github none crypto env code = throw provider_not_configured
  login_with_github (some api) crypto env code = do
    token ← exchange_github_code api code
    profile ← fetch_github_profile api token
    login_with_profile crypto env github profile
