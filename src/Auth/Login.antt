-- ===== src/Auth/Login.antt =====
-- src/modules/auth/auth.service.ts: `login` and `verifyMfaLogin`. The state is the tracker of failed
-- attempts beside the database.
use backend_foundation.Prelude.{
  ℕ, ◌+◌, ◌/◌, not, String, Option, none, some, ◌∷◌, is_some, if◌then◌else◌,
}
use backend_foundation.UserAgent.{codes}
use backend_foundation.LoginAttempts.{
  Identifier, address, mfa, Redis, Tracker, check_account_lock, record_failed_attempt,
  reset_attempts,
}
use backend_foundation.Auth.Data.{
  User, DeviceContext, login_failed, Database, Env, Crypto, Claims, access, mfa_challenge,
  too_many_attempts, wrong_credentials, oauth_only_account, email_not_verified, challenge_invalid,
  mfa_code_invalid,
}
use backend_foundation.Auth.Monad.{M, Result, pure, throw, ◌>>=◌, ◌>>◌, gets, modify}
use backend_foundation.Auth.Users
use backend_foundation.Auth.Mfa.{verify_code}
use backend_foundation.Auth.Refresh.{TokenPair, user_agent_of, ip_address_of, issue_tokens_for_user}

abbrev pub LoginState : Type 0 → Type 0
LoginState R = Tracker R × Database

pub data LoginAnswer : Type 0 where
  tokens : TokenPair → LoginAnswer
  mfa_required : ℕ → LoginAnswer

abbrev pub with_database {ℓ} :
    {A : Type ℓ} {T : Type 0} → T → Result A × Database → Result A × (T × Database)
with_database t (r, db) = (r, (t, db))

-- A call on the database alone.
abbrev pub on_database {ℓ} : {R : Type 0} {A : Type ℓ} → M Database A → M (LoginState R) A
on_database m s = with_database s.0 (m s.1)

-- `Math.ceil(seconds / 60)`
abbrev pub ceil_minutes : ℕ → ℕ
ceil_minutes seconds = (seconds + 59) / 60

-- The user named by a token that is a challenge.
abbrev pub challenged : Option Claims → Option ℕ
challenged none = none
challenged (some (access id email role jti)) = none
challenged (some (mfa_challenge user_id)) = some user_id

module _ {R : Type 0} (api : Option (Redis R)) (crypto : Crypto) (env : Env) where
  abbrev pub refuse_locked : Option ℕ → M (LoginState R) (Unit {0})
  refuse_locked none = pure tt
  refuse_locked (some seconds) = throw (too_many_attempts (ceil_minutes seconds))

  unfoldable pub assert_unlocked : Identifier → M (LoginState R) (Unit {0})
  assert_unlocked k s = let r = check_account_lock api env.now k s.0 in refuse_locked r.0 (r.1, s.1)

  unfoldable pub count_failure : Identifier → M (LoginState R) (Unit {0})
  count_failure k = modify (λ s. (record_failed_attempt api env.now k s.0, s.1))

  unfoldable pub clear_failures : Identifier → M (LoginState R) (Unit {0})
  clear_failures k = modify (λ s. (reset_attempts api env.now k s.0, s.1))

  unfoldable pub log_login_failed : ℕ → Option DeviceContext → M (LoginState R) (Unit {0})
  log_login_failed user_id device = modify (λ s. (
    s.0,
    record s.1 {
      audit_log =
          login_failed user_id (ip_address_of device) (user_agent_of device) ∷ s.1.audit_log;
    },
  ))

  -- From here on the password is right.
  unfoldable pub admit : String → User → Option DeviceContext → M (LoginState R) LoginAnswer
  unfolding clear_failures log_login_failed
  admit email u device =
      if not (is_some u.email_verified_at)
      then (do log_login_failed u.id device; throw email_not_verified)
      else (do
        clear_failures (address (codes email))
        if u.mfa_enabled
            then pure (mfa_required (crypto.sign (mfa_challenge u.id) env.now))
            else (do
              pair ← on_database (issue_tokens_for_user crypto env u device)
              pure (tokens pair)))

  unfoldable pub check_password :
      String → String → Option DeviceContext → User → Option ℕ → M (LoginState R) LoginAnswer
  unfolding admit count_failure log_login_failed
  check_password email password device u none = throw oauth_only_account
  check_password email password device u (some hash) =
      if crypto.compare_password password hash then admit email u device else (do
        count_failure (address (codes email))
        log_login_failed u.id device
        throw wrong_credentials)

  -- For an unknown email `bcrypt.compare` still runs against a fixed hash, for its time only.
  unfoldable pub login_as :
      String → String → Option DeviceContext → Option User → M (LoginState R) LoginAnswer
  unfolding check_password count_failure
  login_as email password device none = do
    count_failure (address (codes email))
    throw wrong_credentials
  login_as email password device (some u) = check_password email password device u u.password

  unfoldable pub login : String → String → Option DeviceContext → M (LoginState R) LoginAnswer
  unfolding login_as assert_unlocked
  login email password device = do
    assert_unlocked (address (codes email))
    found ← gets (λ s. Users.find_by_email email s.1)
    login_as email password device found

  unfoldable pub check_code : ℕ → String → Option DeviceContext → User → M (LoginState R) TokenPair
  unfolding count_failure log_login_failed clear_failures
  check_code user_id code device u = do
    valid ← on_database (verify_code crypto env u code)
    if valid
        then (do
          clear_failures (mfa user_id)
          on_database (issue_tokens_for_user crypto env u device))
        else (do count_failure (mfa user_id); log_login_failed u.id device; throw mfa_code_invalid)

  -- The user is gone, or has turned the second factor off since.
  unfoldable pub verify_mfa_user :
      ℕ → String → Option DeviceContext → Option User → M (LoginState R) TokenPair
  unfolding check_code
  verify_mfa_user user_id code device none = throw challenge_invalid
  verify_mfa_user user_id code device (some u) =
      if u.mfa_enabled then check_code user_id code device u else throw challenge_invalid

  unfoldable pub verify_mfa_claims :
      String → Option DeviceContext → Option ℕ → M (LoginState R) TokenPair
  unfolding verify_mfa_user assert_unlocked
  verify_mfa_claims code device none = throw challenge_invalid
  verify_mfa_claims code device (some user_id) = do
    assert_unlocked (mfa user_id)
    found ← gets (λ s. Users.find_by_id user_id s.1)
    verify_mfa_user user_id code device found

  unfoldable pub verify_mfa_login : ℕ → String → Option DeviceContext → M (LoginState R) TokenPair
  unfolding verify_mfa_claims
  verify_mfa_login challenge code device =
      verify_mfa_claims code device (challenged (crypto.verify challenge env.now))
