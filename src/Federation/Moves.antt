-- ===== src/Federation/Moves.antt =====
-- src/modules/auth/oauth.service.ts and sso.service.ts: every call as a chain of single changes of
-- the tables and of the one-time keys.
use backend_foundation.Prelude.{
  ◌≡◌, refl, Bool, true, false, String, Option, none, some, List, ◌∷◌, Option-cases, Bool-cases,
  inl, inr, arith, or_else, if◌then◌else◌,
}
use backend_foundation.Auth.Data.{
  account_missing, provider_email_missing, provider_token_invalid, provider_code_invalid,
  remote_failed, User, AuthError, Database, Env, Crypto,
}
use backend_foundation.Auth.Monad.{M, Result, ok, err, pure, throw, ◌>>=◌, gets, or_throw, continue}
use backend_foundation.Auth.Users
use backend_foundation.Auth.Refresh.{
  non_empty, issue_tokens_for_user, issue_refresh_token, record_suspicious_login,
}
use backend_foundation.Auth.Repository.{create_refresh_token}
use backend_foundation.Federation.{
  Federation, OauthProviderName, google, github, OauthAccount, SsoIdentity, find_oauth_account,
  create_oauth_account, create_identity, find_identity, on_database,
}
use backend_foundation.Federation.Oauth.{
  Profile, google_profile, GoogleAnswer, GithubApi, vouched_user, user_by_email, new_link,
  account_of, linked_user, find_or_create_user, login_with_profile, login_with_google,
  login_with_github, exchange_github_code, primary_email, github_email, profile_of,
  fetch_github_profile, Reply, GithubUserResponse, GithubEmailEntry, failed, not_ok, body,
}

pub issue-users :
    (crypto : Crypto) (env : Env) (u : User) (db : Database)
    → (issue_tokens_for_user crypto env u none db).1.users ≡ db.users
unfolding issue_tokens_for_user issue_refresh_token create_refresh_token record_suspicious_login
issue-users crypto env u db = ground arith

module _ {R S : Type 0} where
  -- One change by a login through a provider.
  pub data LinkMove (s t : Federation R S) : Type 0 where
    user_added :
        (env : Env) (email name : String)
        → Users.has_email email s.database ≡ false
        → t ≡ record s {
          database = record s.database { users = vouched_user env email name ∷ s.database.users };
        }
        → LinkMove s t
    database_changed :
        (db : Database)
        → db.users ≡ s.database.users
        → t ≡ record s { database = db }
        → LinkMove s t
    account_added :
        (row : OauthAccount)
        → find_oauth_account row.provider row.provider_account_id s ≡ none
        → t ≡ record s { oauth_accounts = row ∷ s.oauth_accounts }
        → LinkMove s t
    identity_added :
        (row : SsoIdentity)
        → find_identity row.tenant_id row.subject s ≡ none
        → t ≡ record s { sso_identities = row ∷ s.sso_identities }
        → LinkMove s t

  -- A relation that holds across each single change holds across a call.
  pub record Closed (Q : Federation R S → Federation R S → Type 0) : Type 0 where
    pub stay : (s : Federation R S) → Q s s
    pub join : {s t u : Federation R S} → Q s t → Q t u → Q s u
    pub link : {s t : Federation R S} → LinkMove s t → Q s t

  -- A call keeps a relation between the state before and after.
  pub record Respects {ℓ} {A : Type ℓ} (Q : Federation R S → Federation R S → Type 0)
      (m : M (Federation R S) A) : Type 0 where
    pub at : (s : Federation R S) → Q s (m s).1

  module _ (Q : Federation R S → Federation R S → Type 0) (closed : Closed Q) where
    pub across-bind {ℓ κ} :
        {A : Type ℓ} {B : Type κ} (m : M (Federation R S) A) (f : A → M (Federation R S) B)
        → Respects Q m
        → ((a : A) → Respects Q (f a))
        → Respects Q (m >>= f)
    across-bind {A} {B} m f hm hf = record { at = λ s. go s (m s) (hm.at s) }
      where
        go :
            (s : Federation R S) (r : Result A × Federation R S)
            → Q s r.1
            → Q s (continue f r.0 r.1).1
        go s (ok a, t) h = closed.join h ((hf a).at t)
        go s (err e, t) h = h

    pub across-gets {ℓ} : {A : Type ℓ} (f : Federation R S → A) → Respects Q (gets f)
    across-gets f = record { at = closed.stay }

    pub across-pure {ℓ} : {A : Type ℓ} (a : A) → Respects Q (pure a)
    across-pure a = record { at = closed.stay }

    pub across-throw {ℓ} : (A : Type ℓ) (e : AuthError) → Respects {A = A} Q (throw e)
    across-throw A e = record { at = closed.stay }

    pub across-or_throw {ℓ} :
        {A : Type ℓ} (o : Option A) (e : AuthError) → Respects Q (or_throw o e)
    across-or_throw none e = record { at = closed.stay }
    across-or_throw (some a) e = record { at = closed.stay }

    pub across-if {ℓ} :
        {A : Type ℓ} (b : Bool) (m k : M (Federation R S) A)
        → Respects Q m
        → Respects Q k
        → Respects Q (if b then m else k)
    across-if true m k hm hk = hm
    across-if false m k hm hk = hk

    pub across-issue :
        (crypto : Crypto) (env : Env) (u : User)
        → Respects Q (on_database (issue_tokens_for_user crypto env u none))
    across-issue crypto env u = record {
      at = λ s. closed.link (
          database_changed (issue_tokens_for_user crypto env u none s.database).1
            (issue-users crypto env u s.database) refl);
    }

    pub across-user :
        (env : Env) (email name : String) (known : Option User)
        → Respects Q (user_by_email env email name known)
    unfolding user_by_email Users.create
    across-user env email name (some u) = record { at = closed.stay }
    across-user env email name none = record {
      at = λ s. elim (Bool-cases (Users.has_email email s.database)) [
        | inl taken ↦ rw taken (closed.stay s)
        | inr free ↦ rw free (closed.link (user_added env email name free refl))
      ];
    }

    across-create_account : (row : OauthAccount) → Respects Q (create_oauth_account row)
    unfolding create_oauth_account
    across-create_account row = record {
      at = λ s. elim (Option-cases (find_oauth_account row.provider row.provider_account_id s)) [
        | inl e ↦ rw e (closed.link (account_added row e refl))
        | inr (a, e) ↦ rw e (closed.stay s)
      ];
    }

    pub across-create_identity : (row : SsoIdentity) → Respects Q (create_identity row)
    unfolding create_identity
    across-create_identity row = record {
      at = λ s. elim (Option-cases (find_identity row.tenant_id row.subject s)) [
        | inl e ↦ rw e (closed.link (identity_added row e refl))
        | inr (a, e) ↦ rw e (closed.stay s)
      ];
    }

    across-new_link :
        (env : Env) (provider : OauthProviderName) (profile : Profile) (known : Option User)
        → Respects Q (new_link env provider profile known)
    unfolding new_link
    across-new_link env provider profile known =
        across-bind _ _ (across-user env profile.email profile.name known) (λ u.
          across-bind _ _ (across-create_account (account_of provider profile u))
            (λ done. across-pure u))

    across-linked :
        (o : Option OauthAccount) (env : Env) (provider : OauthProviderName) (profile : Profile)
        → Respects Q (linked_user o env provider profile)
    unfolding linked_user
    across-linked (some account) env provider profile =
        across-bind _ _ (across-gets _) (λ found. across-or_throw found account_missing)
    across-linked none env provider profile =
        across-bind _ _ (across-gets _) (λ known. across-new_link env provider profile known)

    pub across-login :
        (crypto : Crypto) (env : Env) (provider : OauthProviderName) (profile : Profile)
        → Respects Q (login_with_profile crypto env provider profile)
    unfolding login_with_profile find_or_create_user
    across-login crypto env provider profile =
        across-bind _ _
          (across-bind _ _ (across-gets _) (λ o. across-linked o env provider profile))
          (λ u. across-issue crypto env u)

    pub across-google :
        (verify : Option (String → GoogleAnswer)) (crypto : Crypto) (env : Env) (id_token : String)
        → Respects Q (login_with_google verify crypto env id_token)
    unfolding login_with_google
    across-google none crypto env id_token = across-throw _ _
    across-google (some verify) crypto env id_token =
        across-bind _ _ (across-or_throw (google_profile (verify id_token)) provider_token_invalid)
          (λ profile. across-login crypto env google profile)

    across-primary : (r : Reply (List GithubEmailEntry)) → Respects Q (primary_email r)
    unfolding primary_email
    across-primary failed = across-throw _ _
    across-primary not_ok = across-pure _
    across-primary (body entries) = across-pure _

    across-email :
        (api : GithubApi) (token : String) (o : Option String)
        → Respects Q (github_email api token o)
    unfolding github_email
    across-email api token (some email) = across-pure _
    across-email api token none = across-primary (api.emails token)

    across-profile :
        (api : GithubApi) (token : String) (r : Reply GithubUserResponse)
        → Respects Q (profile_of api token r)
    unfolding profile_of
    across-profile api token failed = across-throw _ _
    across-profile api token not_ok = across-throw _ _
    across-profile api token (body github_user) =
        across-bind _ _ (across-email api token (non_empty github_user.email)) (λ found.
          across-bind _ _ (across-or_throw (non_empty found) provider_email_missing) (λ email.
            across-pure (record {
              provider_account_id = github_user.id;
              email = email;
              name = or_else github_user.name github_user.login;
            })))

    pub across-github :
        (api : Option GithubApi) (crypto : Crypto) (env : Env) (code : String)
        → Respects Q (login_with_github api crypto env code)
    unfolding login_with_github exchange_github_code fetch_github_profile
    across-github none crypto env code = across-throw _ _
    across-github (some api) crypto env code =
        across-bind _ _
          (across-bind _ _ (across-or_throw (api.access_token code) remote_failed)
            (λ answer. across-or_throw (non_empty answer) provider_code_invalid))
          (λ token.
            across-bind _ _ (across-profile api token (api.user token))
              (λ profile. across-login crypto env github profile))
