-- ===== src/Federation/OauthLaws.antt =====
-- src/modules/auth/oauth.service.ts: whom a login through Google or GitHub is taken for.
use backend_foundation.Prelude.{
  ℕ, ◌≡◌, refl, sym, ap, subst, ◌∙◌, inl, inr, true, String, Option, none, some, ◌∷◌, Option-cases,
  arith, ==_refl, ==_iff, find_sound, ◌⊎◌,
}
use backend_foundation.Auth.Data.{User, Env, Crypto}
use backend_foundation.Auth.Monad.{Result, ok, continue, pure}
use backend_foundation.Auth.Users
use backend_foundation.Auth.Refresh.{TokenPair, issue_tokens_for_user, non_empty}
use backend_foundation.Federation.{
  Federation, OauthProviderName, google, github, same_provider, OauthAccount, find_oauth_account,
  create_oauth_account, on_database,
}
use backend_foundation.Federation.Oauth.{
  new_link, account_of, Profile, GooglePayload, GoogleAnswer, ticket, vouched_user, user_by_email,
  linked_user, find_or_create_user, login_with_profile, google_profile, login_with_google,
}
use backend_foundation.Federation.SsoLaws.{cont-ok, pure-ok}

same_provider_refl : (p : OauthProviderName) → same_provider p p ≡ true
same_provider_refl google = refl
same_provider_refl github = refl

module _ {R S : Type 0} where
  -- The user that an account of a provider is taken for.
  pub data OauthOwner (env : Env) (provider : OauthProviderName) (profile : Profile)
      (s : Federation R S) (u : User) : Type 0 where
    linked :
        (a : OauthAccount)
        → find_oauth_account provider profile.provider_account_id s ≡ some a
        → Users.find_by_id a.user_id s.database ≡ some u
        → OauthOwner env provider profile s u
    known_email :
        find_oauth_account provider profile.provider_account_id s ≡ none
        → Users.find_by_email profile.email s.database ≡ some u
        → OauthOwner env provider profile s u
    new_account :
        find_oauth_account provider profile.provider_account_id s ≡ none
        → Users.find_by_email profile.email s.database ≡ none
        → u ≡ vouched_user env profile.email profile.name
        → OauthOwner env provider profile s u

  added-account :
      (row : OauthAccount) (s : Federation R S)
      → find_oauth_account row.provider row.provider_account_id
          (record s { oauth_accounts = row ∷ s.oauth_accounts })
        ≡ some row
  unfolding find_oauth_account
  added-account row s = rw (same_provider_refl row.provider, ==_refl row.provider_account_id) refl

  create_account-ok :
      (row : OauthAccount) (v : User) (s : Federation R S) {u : User}
      → (continue
          (λ (done : Unit {0}). pure v)
          (create_oauth_account row s).0
          (create_oauth_account row s).1).0
        ≡ ok u
      → (v ≡ u)
        × (find_oauth_account row.provider row.provider_account_id
              (continue
                (λ (done : Unit {0}). pure v)
                (create_oauth_account row s).0
                (create_oauth_account row s).1).1
            ≡ some row)
  unfolding create_oauth_account
  create_account-ok row v s h =
      elim (Option-cases (find_oauth_account row.provider row.provider_account_id s)) [
        | inr (a, e) ↦ absurd (cc (rw e at h))
        | inl e ↦ (cc (rw e at h), rw e (added-account row s))
      ]

  -- The account of the profile stands for the user.
  abbrev pub StandsFor : OauthProviderName → Profile → User → Federation R S → Type 0
  StandsFor provider profile u s =
      (a : OauthAccount) × (find_oauth_account provider profile.provider_account_id s ≡ some a)
      × (a.user_id ≡ u.id)

  user_by_email-ok :
      (env : Env) (email name : String) (known : Option User) (s : Federation R S) {u : User}
      → (user_by_email env email name known s).0 ≡ ok u
      → (known ≡ some u) ⊎ ((known ≡ none) × (u ≡ vouched_user env email name))
  unfolding user_by_email
  user_by_email-ok env email name (some v) s h = inl (cc h)
  user_by_email-ok env email name none s h = inr (
    refl,
    sym (
        pure-ok (vouched_user env email name)
          (on_database (Users.create (vouched_user env email name)) s) h),
  )

  new_link-ok :
      (env : Env) (provider : OauthProviderName) (profile : Profile) (known : Option User)
      (s : Federation R S) {u : User}
      → (new_link env provider profile known s).0 ≡ ok u
      → ((known ≡ some u) ⊎ ((known ≡ none) × (u ≡ vouched_user env profile.email profile.name)))
        × StandsFor provider profile u (new_link env provider profile known s).1
  unfolding new_link
  new_link-ok env provider profile known s {u} h =
      let r = user_by_email env profile.email profile.name known s in
      let (v, m, rest) = cont-ok _ r h in
      let (same, stands) =
        create_account-ok (account_of provider profile v) v r.1
          (ap (λ (x : Result User × Federation R S). x.0) (sym rest) ∙ h) in
      (
        subst
            (λ (x : User).
              (known ≡ some x)
              ⊎ ((known ≡ none) × (x ≡ vouched_user env profile.email profile.name)))
            same (user_by_email-ok env profile.email profile.name known s m),
        (
          account_of provider profile v,
          subst
              (λ (x : Result User × Federation R S).
                find_oauth_account provider profile.provider_account_id x.1
                ≡ some (account_of provider profile v))
              (sym rest) stands,
          ap (λ (x : User). x.id) same,
        ),
      )

  found_id :
      (id : ℕ) (s : Federation R S) {u : User} → Users.find_by_id id s.database ≡ some u → u.id ≡ id
  unfolding Users.find_by_id
  found_id id s {u} e =
      let (m, passed) = find_sound _ s.database.users e in (==_iff u.id id).0 (ground arith)

  find_or_create_user-ok :
      (env : Env) (provider : OauthProviderName) (profile : Profile) (s : Federation R S) {u : User}
      → (find_or_create_user env provider profile s).0 ≡ ok u
      → OauthOwner env provider profile s u
        × StandsFor provider profile u (find_or_create_user env provider profile s).1
  unfolding find_or_create_user linked_user
  find_or_create_user-ok env provider profile s {u} h =
      elim (Option-cases (find_oauth_account provider profile.provider_account_id s)) [
        | inr (a, e) ↦ elim (Option-cases (Users.find_by_id a.user_id s.database)) [
          | inl f ↦ absurd (cc (rw (e, f) at h))
          | inr (v, f) ↦
              let same : ok v ≡ ok u = rw (e, f) at h in
              let found = f ∙ ap (λ x. some x) (cc same) in
              (linked a e found, (a, rw (e, f) e, sym (found_id a.user_id s found)))
        ]
        | inl e ↦
            let known = Users.find_by_email profile.email s.database in
            let (who, stands) = new_link-ok env provider profile known s (rw e at h) in
            (
              elim who [ inl f ↦ known_email e f | inr (f, made) ↦ new_account e f made ],
              rw e stands,
            )
      ]

-- A login through Google or GitHub hands out tokens only for the user that the account of the
-- provider is linked to, else for the user that has the email of the profile, else for a new user
-- with that email, proved, and no password; that user is not deleted, or new. The account is linked
-- to the user afterwards, and the tokens are those of `issueTokensForUser`.
pub oauth_needs_proof :
    {R S : Type 0} (crypto : Crypto) (env : Env) (provider : OauthProviderName) (profile : Profile)
    (s : Federation R S) {pair : TokenPair}
    → (login_with_profile crypto env provider profile s).0 ≡ ok pair
    → (u : User) × OauthOwner env provider profile s u
      × StandsFor provider profile u (login_with_profile crypto env provider profile s).1
      × ((issue_tokens_for_user crypto env u none
            (find_or_create_user env provider profile s).1.database).0
          ≡ ok pair)
unfolding login_with_profile find_oauth_account
oauth_needs_proof {R} {S} crypto env provider profile s {pair} h =
    let r = find_or_create_user env provider profile s in
    let (u, m, rest) = cont-ok _ r h in
    let (who, (a, linked_to, same)) = find_or_create_user-ok env provider profile s m in
    (
      u,
      who,
      (a, rw rest linked_to, same),
      ap (λ (x : Result TokenPair × Federation R S). x.0) (sym rest) ∙ h,
    )

-- A Google account that is linked to nobody logs in as the user that has the email of its payload,
-- whatever the payload says of `email_verified`: the answer is that of `issueTokensForUser` for that
-- user, once the link is written.
pub google_email_trusted :
    {R S : Type 0} (crypto : Crypto) (env : Env) (verify : String → GoogleAnswer)
    (id_token email : String) (payload : GooglePayload) (u : User) (s : Federation R S)
    → verify id_token ≡ ticket (some payload)
    → non_empty payload.email ≡ some email
    → find_oauth_account google payload.sub s ≡ none
    → Users.find_by_email email s.database ≡ some u
    → (login_with_google (some verify) crypto env id_token s).0
      ≡ (issue_tokens_for_user crypto env u none s.database).0
unfolding login_with_google google_profile login_with_profile find_or_create_user linked_user
    new_link create_oauth_account user_by_email
google_email_trusted crypto env verify id_token email payload u s e f g k =
    rw (e, google_profile, f, g, k, user_by_email, create_oauth_account, g) refl
