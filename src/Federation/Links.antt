-- ===== src/Federation/Links.antt =====
-- src/modules/auth/oauth.service.ts: whom the account of a provider stands for, over any sequence
-- of federated logins.
use backend_foundation.Prelude.{
  ℕ, ◌==◌, ==_iff, ◌≡◌, refl, sym, subst, inl, inr, true, ◌&&◌, String, Option, none, some, List,
  ◌∷◌, arith, Option-cases, Bool-cases,
}
use backend_foundation.Auth.Data.{User, Env, Crypto}
use backend_foundation.Auth.Monad.{ok}
use backend_foundation.Auth.Users
use backend_foundation.Auth.Refresh.{TokenPair, issue_tokens_for_user}
use backend_foundation.Federation.{
  Federation, OauthProviderName, google, github, same_provider, OauthAccount, find_oauth_account,
}
use backend_foundation.Federation.Oauth.{
  Profile, GoogleAnswer, GithubApi, login_with_profile, find_or_create_user, linked_user,
}
use backend_foundation.Federation.Sso.{SsoRedis, Oidc}
use backend_foundation.Federation.Moves.{
  LinkMove, user_added, database_changed, account_added, identity_added,
}
use backend_foundation.Federation.SsoMoves.{
  SsoMove, connections_changed, state_set, state_taken, code_set, code_taken, ClosedSso,
}
use backend_foundation.Federation.Histories.{FederationCall, AllSet-any, run_federated, run-keeps}

same_provider_iff : (p q : OauthProviderName) → same_provider p q ≡ true → p ≡ q
same_provider_iff google google e = refl
same_provider_iff google github e = cc
same_provider_iff github google e = cc
same_provider_iff github github e = refl

module _ {R S : Type 0} where
  -- Every link of a provider's account is there still.
  abbrev Linked : Federation R S → Federation R S → Type 0
  Linked s t =
      (provider : OauthProviderName) (id : ℕ) (a : OauthAccount)
      → find_oauth_account provider id s ≡ some a
      → find_oauth_account provider id t ≡ some a

  added-Linked :
      (s : Federation R S) (row : OauthAccount)
      → find_oauth_account row.provider row.provider_account_id s ≡ none
      → Linked s (record s { oauth_accounts = row ∷ s.oauth_accounts })
  unfolding find_oauth_account
  added-Linked s row free provider id a e =
      elim (Bool-cases (same_provider row.provider provider && row.provider_account_id == id)) [
        | inl hit ↦
            let p = same_provider_iff row.provider provider (ground arith) in
            let i : row.provider_account_id ≡ id = (==_iff _ _).0 (ground arith) in
            absurd (cc (rw (p, i) at free, e))
        | inr miss ↦ rw miss e
      ]

  move-Linked : (s t : Federation R S) → LinkMove s t → Linked s t
  unfolding find_oauth_account
  move-Linked s t (user_added env email name free e) = subst (Linked s) (sym e) (λ p i a h. h)
  move-Linked s t (database_changed db same e) = subst (Linked s) (sym e) (λ p i a h. h)
  move-Linked s t (account_added row free e) = subst (Linked s) (sym e) (added-Linked s row free)
  move-Linked s t (identity_added row free e) = subst (Linked s) (sym e) (λ p i a h. h)

  module _ (api : SsoRedis R S) where
    sso-Linked :
        {States Codes : ℕ → Type 0} (s t : Federation R S)
        → SsoMove api States Codes s t
        → Linked s t
    unfolding find_oauth_account
    sso-Linked s t (connections_changed cs e) = subst (Linked s) (sym e) (λ p i a h. h)
    sso-Linked s t (state_set now ttl key v r h set e) = subst (Linked s) (sym e) (λ p i a h. h)
    sso-Linked s t (state_taken now key e) = subst (Linked s) (sym e) (λ p i a h. h)
    sso-Linked s t (code_set now ttl key v r h set e) = subst (Linked s) (sym e) (λ p i a h. h)
    sso-Linked s t (code_taken now key e) = subst (Linked s) (sym e) (λ p i a h. h)

    ClosedSso-Linked : ClosedSso api (λ k. Unit {0}) (λ k. Unit {0}) Linked
    ClosedSso-Linked = record {
      closed = record {
        stay = λ s p i a h. h;
        join = λ f g p i a h. g p i a (f p i a h);
        link = λ m. move-Linked _ _ m;
      };
      move = λ m. sso-Linked _ _ m;
    }

-- The tokens of a login whose provider account is linked already.
linked_login :
    {R S : Type 0} (crypto : Crypto) (env : Env) (provider : OauthProviderName) (profile : Profile)
    (s : Federation R S) {a : OauthAccount} {pair : TokenPair}
    → find_oauth_account provider profile.provider_account_id s ≡ some a
    → (login_with_profile crypto env provider profile s).0 ≡ ok pair
    → (u : User) × (Users.find_by_id a.user_id s.database ≡ some u)
      × ((issue_tokens_for_user crypto env u none s.database).0 ≡ ok pair)
      × ((login_with_profile crypto env provider profile s).1.database
          ≡ (issue_tokens_for_user crypto env u none s.database).1)
unfolding login_with_profile find_or_create_user linked_user
linked_login {R} {S} crypto env provider profile s {a} {pair} e h =
    elim (Option-cases (Users.find_by_id a.user_id s.database)) [
      | inl gone ↦ absurd (cc (rw (e, gone) at h))
      | inr (u, found) ↦ (u, found, rw (e, found) at h, rw (e, found) refl)
    ]

-- An account of a provider that was linked once stands for the same user after any sequence of
-- federated logins, changes of connections included: a later login with that account, whatever email
-- the provider names by then, hands out tokens only for the user that the link names, who is not
-- deleted, and they are those of `issueTokensForUser` for that user.
pub linked_for_good :
    {R S : Type 0} (api : SsoRedis R S) (verify : Option (String → GoogleAnswer))
    (github_api : Option GithubApi) (base_url : Option String) (oidc : Oidc) (crypto : Crypto)
    (calls : List FederationCall) (env : Env) (provider : OauthProviderName) (profile : Profile)
    (s : Federation R S) {a : OauthAccount} {pair : TokenPair}
    → find_oauth_account provider profile.provider_account_id s ≡ some a
    → (login_with_profile crypto env provider profile
        (run_federated api verify github_api base_url oidc crypto calls s)).0
      ≡ ok pair
    → (u : User) × (Users.find_by_id a.user_id
          (run_federated api verify github_api base_url oidc crypto calls s).database
        ≡ some u)
      × ((issue_tokens_for_user crypto env u none
            (run_federated api verify github_api base_url oidc crypto calls s).database).0
          ≡ ok pair)
linked_for_good api verify github_api base_url oidc crypto calls env provider profile s e h =
    let t = run_federated api verify github_api base_url oidc crypto calls s in
    let kept =
      run-keeps api verify github_api base_url oidc crypto (λ k. Unit) (λ k. Unit) _
        (ClosedSso-Linked api) calls (AllSet-any calls) s provider profile.provider_account_id _
        e in
    let (u, found, issued, after) = linked_login crypto env provider profile t kept h in
    (u, found, issued)
