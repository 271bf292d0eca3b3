-- ===== src/Federation/Tests.antt =====
-- Runs of src/modules/auth/oauth.service.ts and sso.service.ts.
use backend_foundation.Prelude.{
  ℕ, String, List, ◌≡◌, ◌≢◌, refl, sym, ap, ◌∙◌, ◌==◌, if◌then◌else◌, ◌⊎◌, none, some, [], ◌∷◌,
  arith, Memᴰ,
}
use backend_foundation.LoginAttempts.{Tracker, check_account_lock}
use backend_foundation.Auth.Data.{User, sso_exchange_invalid, remote_failed}
use backend_foundation.Auth.Monad.{ok, err}
use backend_foundation.Auth.Users
use backend_foundation.Auth.Login.{login}
use backend_foundation.Auth.LoginLaws.{Authenticated}
use backend_foundation.Auth.Refresh.{issue_tokens_for_user, non_empty}
use backend_foundation.Auth.Repository.{create_refresh_token}
use backend_foundation.Auth.Sample.{toy, ada, mia, gone, db, at, at', pair, pair'}
use backend_foundation.Federation.{Federation, google, find_oauth_account, find_connection}
use backend_foundation.Federation.Oauth.{
  google_profile, Profile, login_with_google, login_with_profile, find_or_create_user,
}
use backend_foundation.Federation.Sso.{
  build_authorization_url, handle_callback, consume, in_domain, reply,
}
use backend_foundation.Federation.Histories.{
  FederationCall, google_login, sso_consume, sso_start, run_federated,
}
use backend_foundation.Gate.Tenants.{find_tenant_by_slug}
use backend_foundation.UserAgent.{to_lower}
use backend_foundation.Federation.Links.{linked_for_good}
use backend_foundation.Federation.Accounts.{password_after_federation}
use backend_foundation.Federation.OneTime.{exchange_code_once}
use backend_foundation.Federation.StateOnce.{state_once}
use backend_foundation.Federation.SsoLogin.{SsoProof, sso_needs_proof}
use backend_foundation.Federation.Tenancy.{LoggedIn, sso_within_tenant}
use backend_foundation.Federation.Apart.{TenantsApart, UsersOnce, Unused}
use backend_foundation.Federation.OauthLaws.{
  OauthOwner, StandsFor, oauth_needs_proof, google_email_trusted,
}
use backend_foundation.Federation.Sample.{
  States, Codes, redis, store-SingleUse, verify_google, google_ada, oidc, kept, start, query,
}
use backend_foundation.Auth.Refresh.{TokenPair}
use backend_foundation.Federation.Sso.{StateData}

abbrev calls : List FederationCall
calls =
    google_login (at 10) "token"
    ∷ sso_start 15 (record { state = 410; nonce = 411; code_verifier = 412 }) "acme"
    ∷ sso_consume 20 500
    ∷ []

abbrev later : Federation States Codes
later = run_federated redis (some verify_google) none (some "https://app") oidc toy calls start

-- The email of the profile has changed since the account was linked.
abbrev profile : Profile
profile = record { provider_account_id = 901; email = "new@y.org"; name = "Ada" }

linked_for_good_example :
    (u : User) × (Users.find_by_id 1 later.database ≡ some u)
    × ((issue_tokens_for_user toy (at' 30) u none later.database).0 ≡ ok pair')
unfolding find_oauth_account login_with_profile run_federated Users.find_by_id issue_tokens_for_user
    consume login_with_google google_profile Users.find_by_email create_refresh_token
    build_authorization_url find_tenant_by_slug find_connection
linked_for_good_example =
    linked_for_good redis (some verify_google) none (some "https://app") oidc toy calls (at' 30)
      google profile start refl refl

abbrev tracker : Tracker ℕ
tracker = record { memory_attempts = λ k. none; memory_locks = λ k. none; redis = 0 }

password_after_federation_example :
    (u : User) × Memᴰ u db.users
    × Authenticated none toy (at' 30) "ada@x.org" "secret" (tracker, later.database) u
unfolding login run_federated check_account_lock Users.find_by_email consume login_with_google
    google_profile issue_tokens_for_user create_refresh_token build_authorization_url
    find_tenant_by_slug find_connection
password_after_federation_example =
    password_after_federation redis (some verify_google) none (some "https://app") oidc toy none
      (at' 30) "ada@x.org" "secret" none tracker calls start {pair = pair'} refl

abbrev consumed : Federation States Codes
consumed = (consume (some redis) 20 500 start).1

exchange_code_once_example :
    ((consume (some redis) 40 500 (
        run_federated redis
          (some verify_google)
          none
          (some "https://app")
          oidc
          toy
          calls
          consumed)).0
      ≡ err sso_exchange_invalid)
    ⊎ ((consume (some redis) 40 500 (
          run_federated redis
            (some verify_google)
            none
            (some "https://app")
            oidc
            toy
            calls
            consumed)).0
        ≡ err remote_failed)
unfolding consume
exchange_code_once_example =
    exchange_code_once redis (store-SingleUse TokenPair) (some verify_google) none
      (some "https://app") oidc toy calls 20 40 500 start {pair = pair} refl (tt, (tt, (tt, tt)))

fresh_state : ◌≢◌ {A = ℕ} 410 400
fresh_state e = omega (arith, e)

state_once_example :
    (handle_callback (some redis) (some "https://app") oidc toy (at' 40) 602 "acme" query (
      run_federated redis
        (some verify_google)
        none
        (some "https://app")
        oidc
        toy
        calls
        (handle_callback
          (some redis)
          (some "https://app")
          oidc
          toy
          (at 20)
          601
          "acme"
          query
          start).1)).0
    ≢ ok 602
unfolding handle_callback
state_once_example =
    state_once redis (store-SingleUse StateData) (some verify_google) none (some "https://app") oidc
      toy (at 20) 601 "acme" query start {kept = kept} calls (at' 40) 602 "acme" query 602 refl refl
      refl (tt, (fresh_state, (tt, tt))) refl

sso_needs_proof_example :
    (◌≡◌ {A = ℕ} 601 601)
    × ((given : String) × (held : StateData) × (non_empty query.error ≡ none)
        × (non_empty query.code ≡ some given)
        × ((redis.states.get_del 20 400 start.states).0 ≡ reply (some held))
        × SsoProof redis
            (some "https://app")
            oidc
            toy
            (at 20)
            601
            "acme"
            given
            400
            held
            (record start { states = (redis.states.get_del 20 400 start.states).1 })
            (handle_callback
              (some redis)
              (some "https://app")
              oidc
              toy
              (at 20)
              601
              "acme"
              query
              start).1)
unfolding handle_callback find_tenant_by_slug find_connection in_domain to_lower Users.find_by_email
    Users.has_email issue_tokens_for_user create_refresh_token
sso_needs_proof_example =
    sso_needs_proof redis (some "https://app") oidc toy (at 20) 601 "acme" query start refl

abbrev user_with : ℕ → User
user_with id = if id == 1 then ada else if id == 2 then mia else gone

start-user : (u : User) → Memᴰ u start.database.users → u ≡ user_with u.id
start-user u (Memᴰ.head e) = rw e refl
start-user u (Memᴰ.tail (Memᴰ.head e)) = rw e refl
start-user u (Memᴰ.tail (Memᴰ.tail (Memᴰ.head e))) = rw e refl
start-user u (Memᴰ.tail (Memᴰ.tail (Memᴰ.tail m))) = elim m [ ]

start-UsersOnce : UsersOnce start
start-UsersOnce u v m n id = start-user u m ∙ ap user_with id ∙ sym (start-user v n)

start-Unused : Unused 11 start
start-Unused = record {
  by_user = λ u m id.
      absurd (omega (arith, id, ap (λ (x : User). x.id) (start-user u m ∙ ap user_with id)));
  by_link = λ i m. elim m [ ];
}

start-TenantsApart : TenantsApart start
start-TenantsApart = record { within = λ i u m. elim m [ ]; once = start-UsersOnce }

sso_within_tenant_example :
    let after =
      (handle_callback
        (some redis)
        (some "https://app")
        oidc
        toy
        (at 20)
        601
        "acme"
        query
        start).1 in
    TenantsApart after
    × LoggedIn redis (some "https://app") oidc toy (at 20) 601 "acme" query start after
unfolding handle_callback find_tenant_by_slug find_connection in_domain to_lower Users.find_by_email
    Users.has_email issue_tokens_for_user create_refresh_token
sso_within_tenant_example =
    sso_within_tenant redis (some "https://app") oidc toy (at 20) 601 "acme" query start
      start-TenantsApart start-Unused refl

oauth_needs_proof_example :
    (u : User) × OauthOwner (at 10) google profile start u
    × StandsFor google profile u (login_with_profile toy (at 10) google profile start).1
    × ((issue_tokens_for_user toy
          (at 10)
          u
          none
          (find_or_create_user (at 10) google profile start).1.database).0
        ≡ ok pair)
unfolding login_with_profile Users.find_by_id issue_tokens_for_user create_refresh_token
oauth_needs_proof_example = oauth_needs_proof toy (at 10) google profile start refl

google_email_trusted_example :
    (login_with_google (some verify_google) toy (at 10) "token" start).0
    ≡ (issue_tokens_for_user toy (at 10) ada none db).0
unfolding find_oauth_account Users.find_by_email
google_email_trusted_example =
    google_email_trusted toy (at 10) verify_google "token" "ada@x.org" google_ada ada start refl
      refl refl refl
