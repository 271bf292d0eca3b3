-- ===== src/Federation/Accounts.antt =====
-- src/modules/auth/oauth.service.ts, sso.service.ts: what federated logins do to the table of users,
-- and to logins with a password.
use backend_foundation.Prelude.{
  ℕ, ◌≡◌, refl, sym, subst, ◌⊎◌, inl, inr, true, String, Option, none, List, ◌∷◌, Memᴰ, is_some,
  find_sound,
}
use backend_foundation.LoginAttempts.{Redis, Tracker}
use backend_foundation.Auth.Data.{User, DeviceContext, Env, Crypto}
use backend_foundation.Auth.Monad.{ok}
use backend_foundation.Auth.Users
use backend_foundation.Auth.Refresh.{TokenPair}
use backend_foundation.Auth.Login.{login, tokens}
use backend_foundation.Auth.LoginLaws.{Authenticated, login_needs_proof}
use backend_foundation.Federation.{Federation}
use backend_foundation.Federation.Oauth.{GoogleAnswer, GithubApi, vouched_user}
use backend_foundation.Federation.Sso.{SsoRedis, Oidc}
use backend_foundation.Federation.Moves.{
  LinkMove, user_added, database_changed, account_added, identity_added,
}
use backend_foundation.Federation.SsoMoves.{
  SsoMove, connections_changed, state_set, state_taken, code_set, code_taken, ClosedSso,
}
use backend_foundation.Federation.Histories.{FederationCall, AllSet-any, run_federated, run-keeps}

-- A row that a provider vouched for.
pub record Vouched (u : User) : Type 0 where
  pub no_password : u.password ≡ none
  pub verified : is_some u.email_verified_at ≡ true

provisioned_row :
    (env : Env) (email name : String) (us : List User) (u : User)
    → Memᴰ u (vouched_user env email name ∷ us)
    → Memᴰ u us ⊎ Vouched u
unfolding vouched_user
provisioned_row env email name us u (Memᴰ.head e) =
    inr (subst Vouched (sym e) (record { no_password = refl; verified = refl }))
provisioned_row env email name us u (Memᴰ.tail m) = inl m

module _ {R S : Type 0} where
  -- The rows of before are there as they were, and the others are vouched for.
  pub record UsersGrow (s t : Federation R S) : Type 0 where
    pub kept : (u : User) → Memᴰ u s.database.users → Memᴰ u t.database.users
    pub added : (u : User) → Memᴰ u t.database.users → Memᴰ u s.database.users ⊎ Vouched u

  UsersGrow-refl : (s : Federation R S) → UsersGrow s s
  UsersGrow-refl s = record { kept = λ u m. m; added = λ u m. inl m }

  UsersGrow-same : (s t : Federation R S) → t.database.users ≡ s.database.users → UsersGrow s t
  UsersGrow-same s t e = record {
    kept = λ u m. subst (λ us. Memᴰ u us) (sym e) m;
    added = λ u m. inl (subst (λ us. Memᴰ u us) e m);
  }

  UsersGrow-trans : {s t v : Federation R S} → UsersGrow s t → UsersGrow t v → UsersGrow s v
  UsersGrow-trans f g = record {
    kept = λ u m. g.kept u (f.kept u m);
    added = λ u m. elim (g.added u m) [ inl n ↦ f.added u n | inr v ↦ inr v ];
  }

  move-UsersGrow : (s t : Federation R S) → LinkMove s t → UsersGrow s t
  move-UsersGrow s t (user_added env email name free e) = subst (UsersGrow s) (sym e) (record {
    kept = λ u m. Memᴰ.tail m;
    added = provisioned_row env email name s.database.users;
  })
  move-UsersGrow s t (database_changed db same e) = UsersGrow-same s t (cc (e, same))
  move-UsersGrow s t (account_added row free e) = UsersGrow-same s t (cc e)
  move-UsersGrow s t (identity_added row free e) = UsersGrow-same s t (cc e)

  module _ (api : SsoRedis R S) where
    sso-UsersGrow :
        {States Codes : ℕ → Type 0} (s t : Federation R S)
        → SsoMove api States Codes s t
        → UsersGrow s t
    sso-UsersGrow s t (connections_changed cs e) = UsersGrow-same s t (cc e)
    sso-UsersGrow s t (state_set now ttl key v r h set e) = UsersGrow-same s t (cc e)
    sso-UsersGrow s t (state_taken now key e) = UsersGrow-same s t (cc e)
    sso-UsersGrow s t (code_set now ttl key v r h set e) = UsersGrow-same s t (cc e)
    sso-UsersGrow s t (code_taken now key e) = UsersGrow-same s t (cc e)

    ClosedSso-UsersGrow : ClosedSso api (λ k. Unit {0}) (λ k. Unit {0}) UsersGrow
    ClosedSso-UsersGrow = record {
      closed = record {
        stay = UsersGrow-refl;
        join = UsersGrow-trans;
        link = λ m. move-UsersGrow _ _ m;
      };
      move = λ m. sso-UsersGrow _ _ m;
    }

module _ {R S : Type 0} (api : SsoRedis R S) (verify : Option (String → GoogleAnswer))
    (github_api : Option GithubApi) (base_url : Option String) (oidc : Oidc) (crypto : Crypto) where
  -- No sequence of federated logins changes or removes the row of a user, and every row that it
  -- adds has no password and a proved email.
  pub federated_users :
      (calls : List FederationCall) (s : Federation R S)
      → UsersGrow s (run_federated api verify github_api base_url oidc crypto calls s)
  federated_users calls s =
      run-keeps api verify github_api base_url oidc crypto (λ k. Unit) (λ k. Unit) UsersGrow
        (ClosedSso-UsersGrow api) calls (AllSet-any calls) s

  -- Whoever a login with a password admits after any sequence of federated logins was a user
  -- before it, with the same row: neither the accounts that providers bring in nor their links to
  -- existing users open a way in with a password.
  pub password_after_federation :
      {T : Type 0} (attempts : Option (Redis T)) (env : Env) (email password : String)
      (device : Option DeviceContext) (tracker : Tracker T) (calls : List FederationCall)
      (s : Federation R S) {pair : TokenPair}
      → (login attempts crypto env email password device
          (tracker, (run_federated api verify github_api base_url oidc crypto calls s).database)).0
        ≡ ok (tokens pair)
      → (u : User) × Memᴰ u s.database.users
        × Authenticated attempts crypto env email password
            (tracker, (run_federated api verify github_api base_url oidc crypto calls s).database)
            u
  unfolding Users.find_by_email
  password_after_federation attempts env email password device tracker calls s {pair} h =
      let db = (run_federated api verify github_api base_url oidc crypto calls s).database in
      let l = login_needs_proof attempts crypto env email password device (tracker, db) pair h in
      let (m, passed) = find_sound _ db.users l.proved.found in
      elim ((federated_users calls s).added l.owner m) [
        | inl before ↦ (l.owner, before, l.proved)
        | inr v ↦ absurd (cc (v.no_password, l.proved.has_password))
      ]
