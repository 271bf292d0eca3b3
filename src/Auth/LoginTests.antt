-- ===== src/Auth/LoginTests.antt =====
-- Runs of src/modules/auth/auth.service.ts: login, recovery, sessions.
use backend_foundation.Prelude.{ℕ, ◌≡◌, refl, none, some}
use backend_foundation.LoginAttempts.{Tracker, check_account_lock}
use backend_foundation.Auth.Data.{unique_violation, http_status}
use backend_foundation.Auth.Monad.{err}
use backend_foundation.Auth.Users
use backend_foundation.Auth.Refresh.{issue_tokens_for_user}
use backend_foundation.Auth.Repository.{create_refresh_token}
use backend_foundation.Auth.Recovery.{register}
use backend_foundation.Auth.Login.{LoginState, login}
use backend_foundation.Auth.LoginLaws.{LoggedIn, login_needs_proof}
use backend_foundation.Auth.RecoveryLaws.{register_deleted_email}
use backend_foundation.Auth.Sample.{toy, db, at, pair}

abbrev tracker : Tracker ℕ
tracker = record { memory_attempts = λ k. none; memory_locks = λ k. none; redis = 0 }

abbrev start : LoginState ℕ
start = (tracker, db)

abbrev locked : LoginState ℕ
locked = (record tracker { memory_locks = λ k. some 1000100 }, db)

login_needs_proof_example :
    LoggedIn none toy
      (at 100)
      "ada@x.org"
      "secret"
      none
      start
      pair
      (login none toy (at 100) "ada@x.org" "secret" none start).1
unfolding login check_account_lock Users.find_by_email issue_tokens_for_user create_refresh_token
login_needs_proof_example =
    login_needs_proof none toy (at 100) "ada@x.org" "secret" none start pair refl

register_deleted_email_example :
    (register toy (at 100) "gone@x.org" "secret" "Gone" db ≡ (err unique_violation, db))
    × (http_status unique_violation ≡ 500)
unfolding Users.find_by_email Users.has_email
register_deleted_email_example =
    register_deleted_email toy (at 100) "gone@x.org" "secret" "Gone" db refl refl
