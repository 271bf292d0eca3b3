-- ===== src/Auth/Recovery.antt =====
-- src/modules/auth/auth.service.ts: registration, email verification and password reset.
use backend_foundation.Prelude.{
  ℕ, ◌+◌, ◌*◌, ltb, String, Option, none, some, ◌∷◌, is_some, if◌then◌else◌,
}
use backend_foundation.Auth.Data.{
  User, OneTimeToken, verification, password_reset, EmailJob, Database, Env, Crypto, email_taken,
  verification_token_invalid, reset_token_invalid,
}
use backend_foundation.Auth.Monad.{
  Result, ok, err, M, pure, ◌>>=◌, ◌>>◌, gets, modify, or_throw, modify_unless,
}
use backend_foundation.Auth.Users
use backend_foundation.Auth.Repository.{
  create_email_verification_token, find_email_verification_token_by_hash,
  delete_email_verification_token, create_password_reset_token, find_password_reset_token_by_hash,
  delete_password_reset_token, delete_all_password_reset_tokens_for_user,
  revoke_all_refresh_tokens_for_user,
}

abbrev pub email_verification_ttl_ms : ℕ
email_verification_ttl_ms = 24 * 60 * 60 * 1000

abbrev pub password_reset_ttl_ms : ℕ
password_reset_ttl_ms = 60 * 60 * 1000

-- `runInTransaction`: an error undoes what the unit of work wrote.
abbrev pub undo {ℓ} : {A : Type ℓ} → Database → Result A × Database → Result A × Database
undo before (ok a, after) = (ok a, after)
undo before (err e, after) = (err e, before)

unfoldable pub run_in_transaction {ℓ} : {A : Type ℓ} → M Database A → M Database A
run_in_transaction m db = undo db (m db)

unfoldable pub enqueue_email_job : EmailJob → M Database (Unit {0})
enqueue_email_job job = modify (λ db. record db { outbox = job ∷ db.outbox })

unfoldable pub invalidate_profile : ℕ → M Database (Unit {0})
invalidate_profile user_id =
    modify (λ db. record db { invalidated_profiles = user_id ∷ db.invalidated_profiles })

-- A stored token that is there and has not run out.
abbrev pub unexpired : ℕ → Option OneTimeToken → Option OneTimeToken
unexpired now none = none
unexpired now (some t) = if ltb t.expires_at now then none else some t

module _ (crypto : Crypto) where
  unfoldable pub one_time_row : Env → ℕ → ℕ → OneTimeToken
  one_time_row env user_id ttl = record {
    id = env.fresh_id;
    token_hash = crypto.hash_secure_token env.fresh_token;
    user_id = user_id;
    expires_at = env.now + ttl;
  }

  unfoldable pub issue_email_verification_token : Env → ℕ → String → M Database (Unit {0})
  unfolding enqueue_email_job
  issue_email_verification_token env user_id email = do
    create_email_verification_token (one_time_row env user_id email_verification_ttl_ms)
    enqueue_email_job (verification email env.fresh_token)

  unfoldable pub register : Env → String → String → String → M Database User
  unfolding issue_email_verification_token
  register env email password name = do
    existing ← gets (Users.find_by_email email)
    modify_unless (is_some existing) email_taken (λ db. db)
    let u = Users.new_user env email (crypto.hash_password password) name
    Users.create u
    issue_email_verification_token env u.id u.email
    pure u

  unfoldable pub verify_email : Env → ℕ → M Database (Unit {0})
  unfolding run_in_transaction invalidate_profile
  verify_email env raw_token = do
    found ← gets (find_email_verification_token_by_hash (crypto.hash_secure_token raw_token))
    t ← or_throw (unexpired env.now found) verification_token_invalid
    run_in_transaction (do
      Users.update t.user_id (λ u. record u { email_verified_at = some env.now })
      delete_email_verification_token t.id)
    invalidate_profile t.user_id

  unfoldable pub forgot_password_of : Env → Option User → M Database (Unit {0})
  unfolding enqueue_email_job
  forgot_password_of env none = pure tt
  forgot_password_of env (some u) = do
    modify (delete_all_password_reset_tokens_for_user u.id)
    create_password_reset_token (one_time_row env u.id password_reset_ttl_ms)
    enqueue_email_job (password_reset u.email env.fresh_token)

  unfoldable pub forgot_password : Env → String → M Database (Unit {0})
  unfolding forgot_password_of
  forgot_password env email = do
    found ← gets (Users.find_by_email email)
    forgot_password_of env found

  unfoldable pub reset_password : Env → ℕ → String → M Database (Unit {0})
  unfolding run_in_transaction invalidate_profile
  reset_password env raw_token new_password = do
    found ← gets (find_password_reset_token_by_hash (crypto.hash_secure_token raw_token))
    t ← or_throw (unexpired env.now found) reset_token_invalid
    run_in_transaction (do
      Users.update t.user_id (λ u. record u { password = some (crypto.hash_password new_password) })
      delete_password_reset_token t.id
      modify (revoke_all_refresh_tokens_for_user env.now t.user_id))
    invalidate_profile t.user_id
