-- ===== src/Auth/LoginLaws.antt =====
-- What a login needs, and what a failed one leaves behind.
use backend_foundation.Prelude.{
  ℕ, ◌≡◌, refl, sym, ap, ◌∙◌, ◌⊎◌, inl, inr, true, false, String, Option, none, some, arith,
  is_some,
}
use backend_foundation.UserAgent.{codes}
use backend_foundation.LoginAttempts.{
  Identifier, address, Redis, check_account_lock, record_failed_attempt, reset_attempts,
}
use backend_foundation.Auth.Data.{
  User, DeviceContext, Database, Env, Crypto, too_many_attempts, wrong_credentials,
}
use backend_foundation.Auth.Monad.{Result, ok, err}
use backend_foundation.Auth.Users
use backend_foundation.Auth.Refresh.{TokenPair, issue_tokens_for_user}
use backend_foundation.Auth.Login.{
  LoginState, LoginAnswer, tokens, login, login_as, check_password, admit, ceil_minutes,
}

module _ {R : Type 0} (api : Option (Redis R)) (crypto : Crypto) (env : Env) where
  -- A user whose password and address have been proved.
  pub record Authenticated (email password : String) (s : LoginState R) (u : User) : Type 0 where
    pub hash : ℕ
    pub unlocked : (check_account_lock api env.now (address (codes email)) s.0).0 ≡ none
    pub found : Users.find_by_email email s.1 ≡ some u
    pub has_password : u.password ≡ some hash
    pub password_right : crypto.compare_password password hash ≡ true
    pub verified : is_some u.email_verified_at ≡ true

  admit-tokens :
      (email : String) (u : User) (device : Option DeviceContext) (s : LoginState R)
      (pair : TokenPair)
      → (admit api crypto env email u device s).0 ≡ ok (tokens pair)
      → (is_some u.email_verified_at ≡ true)
        × (u.mfa_enabled ≡ false)
        × ((issue_tokens_for_user crypto env u device s.1).0 ≡ ok pair)
        × ((admit api crypto env email u device s).1 ≡ (
          reset_attempts api env.now (address (codes email)) s.0,
          (issue_tokens_for_user crypto env u device s.1).1,
        ))
  unfolding admit
  admit-tokens email u device s pair h = (ground arith, ground arith, ground arith, ground arith)

  password-tokens :
      (email password : String) (u : User) (o : Option ℕ) (device : Option DeviceContext)
      (s : LoginState R) (pair : TokenPair)
      → (check_password api crypto env email password device u o s).0 ≡ ok (tokens pair)
      → (hash : ℕ) × (o ≡ some hash)
        × (crypto.compare_password password hash ≡ true)
        × (check_password api crypto env email password device u o s
            ≡ admit api crypto env email u device s)
  unfolding check_password
  password-tokens email password u none device s pair h = cc
  password-tokens email password u (some hash) device s pair h =
      (hash, refl, ground arith, ground arith)

  login-locked :
      (email password : String) (device : Option DeviceContext) (s : LoginState R) {seconds : ℕ}
      → (check_account_lock api env.now (address (codes email)) s.0).0 ≡ some seconds
      → login api crypto env email password device s ≡ (
        err (too_many_attempts (ceil_minutes seconds)),
        ((check_account_lock api env.now (address (codes email)) s.0).1, s.1),
      )
  unfolding login
  login-locked email password device s e = ground arith

  login-unlocked :
      (email password : String) (device : Option DeviceContext) (s : LoginState R)
      → (check_account_lock api env.now (address (codes email)) s.0).0 ≡ none
      → login api crypto env email password device s
        ≡ login_as api crypto env email password device
            (Users.find_by_email email s.1)
            ((check_account_lock api env.now (address (codes email)) s.0).1, s.1)
  unfolding login
  login-unlocked email password device s e = ground arith

-- What a login that hands out tokens has done.
pub record LoggedIn {R : Type 0} (api : Option (Redis R)) (crypto : Crypto) (env : Env)
    (email password : String) (device : Option DeviceContext) (s : LoginState R) (pair : TokenPair)
    (after : LoginState R) : Type 0 where
  pub owner : User
  pub proved : Authenticated api crypto env email password s owner
  pub no_second_factor : owner.mfa_enabled ≡ false
  pub issued : (issue_tokens_for_user crypto env owner device s.1).0 ≡ ok pair
  pub database : after.1 ≡ (issue_tokens_for_user crypto env owner device s.1).1
  pub tracker :
      after.0
      ≡ reset_attempts api env.now
          (address (codes email))
          (check_account_lock api env.now (address (codes email)) s.0).1

-- A login hands out tokens only if the address is not locked, a user that is not deleted has the
-- email and a password that matches, the address is verified and no second factor is set up; the
-- tokens and the database are those of `issueTokensForUser` for that user, and the failed attempts
-- of the address are forgotten.
pub login_needs_proof :
    {R : Type 0} (api : Option (Redis R)) (crypto : Crypto) (env : Env) (email password : String)
    (device : Option DeviceContext) (s : LoginState R) (pair : TokenPair)
    → (login api crypto env email password device s).0 ≡ ok (tokens pair)
    → LoggedIn api crypto env email password device s pair
        (login api crypto env email password device s).1
unfolding login_as
login_needs_proof {R} api crypto env email password device s pair h =
    go (check_account_lock api env.now k s.0).0 refl (Users.find_by_email email s.1) refl
  where
    k : Identifier
    k = address (codes email)

    checked : LoginState R
    checked = ((check_account_lock api env.now k s.0).1, s.1)

    answer : Result LoginAnswer × LoginState R
    answer = login api crypto env email password device s

    Goal : Type 0
    Goal = LoggedIn api crypto env email password device s pair answer.1

    admitted :
        (u : User)
        → (check_account_lock api env.now k s.0).0 ≡ none
        → Users.find_by_email email s.1 ≡ some u
        → answer ≡ check_password api crypto env email password device u u.password checked
        → Goal
    admitted u free found same =
        let (hash, stored, right, step) =
          password-tokens api crypto env email password u u.password device checked pair
            (ap (λ (r : Result LoginAnswer × LoginState R). r.0) (sym same) ∙ h) in
        let end = same ∙ step in
        let (verified, single, issued, after) =
          admit-tokens api crypto env email u device checked pair
            (ap (λ (r : Result LoginAnswer × LoginState R). r.0) (sym end) ∙ h) in
        let left = ap (λ (r : Result LoginAnswer × LoginState R). r.1) end ∙ after in
        record {
          owner = u;
          proved = record {
            hash = hash;
            unlocked = free;
            found = found;
            has_password = stored;
            password_right = right;
            verified = verified;
          };
          no_second_factor = single;
          issued = issued;
          database = ap (λ (x : LoginState R). x.1) left;
          tracker = ap (λ (x : LoginState R). x.0) left;
        }

    go :
        (o : Option ℕ)
        → (check_account_lock api env.now k s.0).0 ≡ o
        → (f : Option User) → Users.find_by_email email s.1 ≡ f
        → Goal
    go (some seconds) e f q = absurd (cc (login-locked api crypto env email password device s e, h))
    go none e none q =
        absurd
          (cc (rw (q, login_as) at (login-unlocked api crypto env email password device s e), h))
    go none e (some u) q =
        admitted u e q
          (rw (q, login_as) at (login-unlocked api crypto env email password device s e))

-- While an address is locked, every login for it is refused with 429, right password or not, and
-- the database stays as it was.
pub login_locked :
    {R : Type 0} (api : Option (Redis R)) (crypto : Crypto) (env : Env) (email password : String)
    (device : Option DeviceContext) (s : LoginState R) (seconds : ℕ)
    → (check_account_lock api env.now (address (codes email)) s.0).0 ≡ some seconds
    → ((login api crypto env email password device s).0
        ≡ err (too_many_attempts (ceil_minutes seconds)))
      × ((login api crypto env email password device s).1.1 ≡ s.1)
login_locked api crypto env email password device s seconds e =
    rw (login-locked api crypto env email password device s e) (refl, refl)

-- The email belongs to no user, or to one whose password is another.
abbrev pub WrongCredentials : Crypto → String → String → Database → Type 0
WrongCredentials crypto email password db =
    (Users.find_by_email email db ≡ none)
    ⊎ ((u : User) × (hash : ℕ) × (Users.find_by_email email db ≡ some u)
        × (u.password ≡ some hash)
        × (crypto.compare_password password hash ≡ false))

-- An unknown email and a wrong password are answered alike: the same error, one failed attempt
-- counted for the address, and no change of the users or the sessions.
pub login_wrong :
    {R : Type 0} (api : Option (Redis R)) (crypto : Crypto) (env : Env) (email password : String)
    (device : Option DeviceContext) (s : LoginState R)
    → (check_account_lock api env.now (address (codes email)) s.0).0 ≡ none
    → WrongCredentials crypto email password s.1
    → ((login api crypto env email password device s).0 ≡ err wrong_credentials)
      × ((login api crypto env email password device s).1.0
          ≡ record_failed_attempt api env.now
              (address (codes email))
              (check_account_lock api env.now (address (codes email)) s.0).1)
      × ((login api crypto env email password device s).1.1.users ≡ s.1.users)
      × ((login api crypto env email password device s).1.1.refresh_tokens ≡ s.1.refresh_tokens)
unfolding login_as
login_wrong api crypto env email password device s e (inl missing) =
    rw (login-unlocked api crypto env email password device s e)
      (rw (missing, login_as) (refl, refl, refl, refl))
login_wrong api crypto env email password device s e (inr (u, hash, found, stored, wrong)) =
    rw (login-unlocked api crypto env email password device s e) (
      rw (found, login_as)
        (rw (stored, check_password) (rw (wrong, check_password) (refl, refl, refl, refl))))
