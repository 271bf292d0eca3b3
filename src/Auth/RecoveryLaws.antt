-- ===== src/Auth/RecoveryLaws.antt =====
-- Resetting a password, revoking sessions, and registering: what each leaves behind.
use backend_foundation.Prelude.{
  ℕ, ◌≤◌, ◌==◌, ◌≡◌, refl, inl, inr, ◌⊎◌, true, not, ◌&&◌, String, none, some, List, map, arith,
  count_where, find, keep, is_some, Option-cases, if◌then◌else◌,
}
use backend_foundation.Auth.Data.{
  RefreshToken, OneTimeToken, Database, Env, Crypto, unique_violation, http_status,
}
use backend_foundation.Auth.Monad.{ok, err}
use backend_foundation.Auth.Users
use backend_foundation.Auth.Repository.{
  is_active, revoke_row, find_password_reset_token_by_hash, delete_password_reset_token,
  revoke_all_refresh_tokens_for_user,
}
use backend_foundation.Auth.Recovery.{reset_password, register}
use backend_foundation.Auth.Rows.{count-revoke_where}

abbrev pub active_of : ℕ → List RefreshToken → ℕ
active_of user_id = count_where (λ t. t.user_id == user_id && is_active t)

-- What a successful reset has done.
pub record PasswordReset (crypto : Crypto) (env : Env) (raw : ℕ) (password : String)
    (db after : Database) : Type 0 where
  pub token : OneTimeToken
  pub stored : find_password_reset_token_by_hash (crypto.hash_secure_token raw) db ≡ some token
  pub unexpired : env.now ≤ token.expires_at
  pub user_row : is_some (find (λ u. u.id == token.user_id) db.users) ≡ true
  pub users :
      after.users
      ≡ map
          (λ u.
            if u.id == token.user_id
            then record u { password = some (crypto.hash_password password) }
            else u)
          db.users
  pub no_session : active_of token.user_id after.refresh_tokens ≡ 0
  pub used_up : after.reset_tokens ≡ keep (λ t. not (t.id == token.id)) db.reset_tokens

-- A reset succeeds only with the stored hash of an unexpired reset token; it then sets the password
-- of that token's user alone, leaves the user no active session and deletes the token.
pub reset_password_ok :
    (crypto : Crypto) (env : Env) (raw : ℕ) (password : String) (db : Database)
    → (reset_password crypto env raw password db).0 ≡ ok tt
    → PasswordReset crypto env raw password db (reset_password crypto env raw password db).1
unfolding reset_password Users.update delete_password_reset_token revoke_all_refresh_tokens_for_user
    revoke_row
reset_password_ok crypto env raw password db h =
    elim (Option-cases (find_password_reset_token_by_hash (crypto.hash_secure_token raw) db)) [
      | inl e ↦ absurd (ground arith)
      | inr (t, e) ↦ record {
        token = t;
        stored = e;
        unexpired = ground arith;
        user_row = ground arith;
        users = ground arith;
        no_session = ground (
          arith,
          count-revoke_where (λ r. r.user_id == t.user_id) env.now db.refresh_tokens (λ r. refl),
        );
        used_up = ground arith;
      }
    ]

-- A reset that fails, for whatever reason, changes nothing at all.
pub reset_password_atomic :
    (crypto : Crypto) (env : Env) (raw : ℕ) (password : String) (db : Database)
    → ((reset_password crypto env raw password db).0 ≡ ok tt)
      ⊎ ((reset_password crypto env raw password db).1 ≡ db)
unfolding reset_password
reset_password_atomic crypto env raw password db = ground arith

-- Registering an email that only a deleted account has passes the check for a taken email and then
-- fails on the unique column, which is answered with status 500; nothing is stored.
pub register_deleted_email :
    (crypto : Crypto) (env : Env) (email password name : String) (db : Database)
    → Users.find_by_email email db ≡ none
    → Users.has_email email db ≡ true
    → (register crypto env email password name db ≡ (err unique_violation, db))
      × (http_status unique_violation ≡ 500)
unfolding register Users.create Users.new_user http_status
register_deleted_email crypto env email password name db free taken = (ground arith, refl)
