-- ===== src/Auth/RevocationSteps.antt =====
-- How the calls that revoke rows, and those that leave them alone, change the session table.
use backend_foundation.Prelude.{
  ℕ, ◌==◌, ◌≡◌, ◌⊎◌, inl, inr, String, Option, none, some, map, arith, find, Option-cases,
  Bool-cases, if◌then◌else◌,
}
use backend_foundation.Auth.Data.{RefreshToken, OneTimeToken, Database, Env, Crypto}
use backend_foundation.Auth.Monad.{◌>>=◌}
use backend_foundation.Auth.Users
use backend_foundation.Auth.Repository.{
  is_active, revoke_row, revoke_where, revoke_refresh_token, revoke_all_refresh_tokens_for_user,
  find_refresh_token_by_id, find_refresh_token_by_hash, add_to_blacklist,
  find_password_reset_token_by_hash, delete_all_password_reset_tokens_for_user,
  create_password_reset_token, delete_password_reset_token, create_email_verification_token,
  delete_email_verification_token,
}
use backend_foundation.Auth.Sessions.{logout, revoke_session, revoke_if_needed}
use backend_foundation.Auth.Recovery.{register, verify_email, forgot_password, reset_password}
use backend_foundation.Auth.Rows.{SameSession}
use backend_foundation.Auth.Families.{updates}
use backend_foundation.Auth.TableSteps.{TableSteps, done, one}

-- Calls that revoke the rows with one id, or none.
abbrev pub row_revoked : ℕ → ℕ → RefreshToken → RefreshToken
row_revoked now id t = if t.id == id then revoke_row now t else t

row_revoked-SameSession : (now id : ℕ) (t : RefreshToken) → SameSession t (row_revoked now id t)
unfolding revoke_row
row_revoked-SameSession now id t = ground arith

-- The id in the row that a lookup found, if it found one.
abbrev id_of : Option RefreshToken → ℕ
id_of none = 0
id_of (some t) = t.id

abbrev pub user_of : Option OneTimeToken → ℕ
user_of none = 0
user_of (some t) = t.user_id

abbrev pub RevokesRow : ℕ → Database → Database → Type 0
RevokesRow now db after =
    (after.refresh_tokens ≡ db.refresh_tokens)
    ⊎ ((id : ℕ) × (after.refresh_tokens ≡ map (row_revoked now id) db.refresh_tokens))

pub RevokesRow-Steps :
    (now : ℕ) (db after : Database)
    → RevokesRow now db after
    → TableSteps db.refresh_tokens after.refresh_tokens
RevokesRow-Steps now db after (inl e) = rw e done
RevokesRow-Steps now db after (inr (id, e)) =
    one (updates (row_revoked now id) (row_revoked-SameSession now id) e)

module _ (crypto : Crypto) (env : Env) where
  revoke_if_needed-RevokesRow :
      (t : RefreshToken) (db : Database) → RevokesRow env.now db (revoke_if_needed env t db).1
  unfolding revoke_if_needed revoke_refresh_token
  revoke_if_needed-RevokesRow t db = elim (Bool-cases (is_active t)) [
    | inl a ↦ elim (Option-cases (find (λ r. r.id == t.id) db.refresh_tokens)) [
      | inl e ↦ inl (ground arith)
      | inr (r, e) ↦ inr (t.id, ground arith)
    ]
    | inr a ↦ inl (ground arith)
  ]

  logs_out-cases :
      (user_id jti exp raw : ℕ) (db : Database)
      → ((logout crypto env user_id jti exp raw db).1.refresh_tokens ≡ db.refresh_tokens)
        ⊎ ((logout crypto env user_id jti exp raw db).1.refresh_tokens
            ≡ map
                (row_revoked env.now
                  (id_of (find_refresh_token_by_hash (crypto.hash_secure_token raw) db)))
                db.refresh_tokens)
  unfolding logout add_to_blacklist find_refresh_token_by_hash revoke_refresh_token
  logs_out-cases user_id jti exp raw db = ground arith

  pub logs_out-RevokesRow :
      (user_id jti exp raw : ℕ) (db : Database)
      → RevokesRow env.now db (logout crypto env user_id jti exp raw db).1
  logs_out-RevokesRow user_id jti exp raw db = elim (logs_out-cases user_id jti exp raw db) [
    | inl e ↦ inl e
    | inr e ↦ inr (_, e)
  ]

  pub revokes_session-RevokesRow :
      (user_id id : ℕ) (db : Database) → RevokesRow env.now db (revoke_session env user_id id db).1
  unfolding revoke_session
  revokes_session-RevokesRow user_id id db = elim (Option-cases (find_refresh_token_by_id id db)) [
    | inl e ↦ inl (ground arith)
    | inr (t, e) ↦ elim (Bool-cases (t.user_id == user_id)) [
      | inl own ↦ rw (e, ◌>>=◌) (rw own (revoke_if_needed-RevokesRow t db))
      | inr other ↦ inl (ground arith)
    ]
  ]

  pub registers-same :
      (email password name : String) (db : Database)
      → (register crypto env email password name db).1.refresh_tokens ≡ db.refresh_tokens
  unfolding register Users.create create_email_verification_token
  registers-same email password name db = ground arith

  pub verifies-same :
      (raw : ℕ) (db : Database)
      → (verify_email crypto env raw db).1.refresh_tokens ≡ db.refresh_tokens
  unfolding verify_email Users.update delete_email_verification_token
  verifies-same raw db = ground arith

  pub forgets-same :
      (email : String) (db : Database)
      → (forgot_password crypto env email db).1.refresh_tokens ≡ db.refresh_tokens
  unfolding forgot_password create_password_reset_token delete_all_password_reset_tokens_for_user
  forgets-same email db = ground arith

  pub resets-cases :
      (raw : ℕ) (password : String) (db : Database)
      → ((reset_password crypto env raw password db).1.refresh_tokens ≡ db.refresh_tokens)
        ⊎ ((reset_password crypto env raw password db).1.refresh_tokens
            ≡ revoke_where
                (λ t.
                  t.user_id
                  == user_of (find_password_reset_token_by_hash (crypto.hash_secure_token raw) db))
                env.now
                db.refresh_tokens)
  unfolding reset_password Users.update delete_password_reset_token
      revoke_all_refresh_tokens_for_user
  resets-cases raw password db = ground arith
