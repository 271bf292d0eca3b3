-- ===== src/Gate/Blacklist.antt =====
-- How a call of src/modules/auth and the job of
-- src/shared/scheduler/jobs/cleanup-expired-blacklisted-tokens.job.ts change the blacklist.
use backend_foundation.Prelude.{
  ℕ, ◌*◌, ◌≤◌, ◌==◌, ◌≡◌, sym, ap, ◌∙◌, ◌⊎◌, inl, inr, true, Bool, not, ltb, String, Option, List,
  [], ◌∷◌, Memᴰ, arith, find, find-none, is_some, Option-cases, Bool-cases, keep, ==_refl,
}
use backend_foundation.Auth.Data.{User, BlacklistedToken, DeviceContext, Database, Env, Crypto}
use backend_foundation.Auth.Monad.{ok}
use backend_foundation.Auth.Users
use backend_foundation.Auth.Repository.{
  is_blacklisted, add_to_blacklist, revoke_refresh_token, revoke_all_refresh_tokens_for_user,
  revoke_refresh_token_if_active, revoke_refresh_token_family, create_refresh_token,
  create_password_reset_token, delete_all_password_reset_tokens_for_user,
  delete_password_reset_token, create_email_verification_token, delete_email_verification_token,
}
use backend_foundation.Auth.Refresh.{issue_tokens_for_user, refresh}
use backend_foundation.Auth.Sessions.{logout, revoke_session, revoke_all_sessions}
use backend_foundation.Auth.Recovery.{register, verify_email, forgot_password, reset_password}
use backend_foundation.Auth.History.{
  Call, Event, perform, signs_in, refreshes, logs_out, revokes_session, revokes_all, registers,
  verifies_email, forgets_password, resets_password,
}

module _ (crypto : Crypto) (env : Env) where
  signs_in-same :
      (u : User) (device : Option DeviceContext) (db : Database)
      → (issue_tokens_for_user crypto env u device db).1.blacklist ≡ db.blacklist
  unfolding issue_tokens_for_user create_refresh_token
  signs_in-same u device db = ground arith

  refreshes-same :
      (raw : ℕ) (device : Option DeviceContext) (db : Database)
      → (refresh crypto env raw device db).1.blacklist ≡ db.blacklist
  unfolding refresh revoke_refresh_token_family revoke_refresh_token_if_active create_refresh_token
  refreshes-same raw device db = ground arith

  revokes_session-same :
      (user_id id : ℕ) (db : Database)
      → (revoke_session env user_id id db).1.blacklist ≡ db.blacklist
  unfolding revoke_session revoke_refresh_token
  revokes_session-same user_id id db = ground arith

  registers-keeps :
      (email password name : String) (db : Database)
      → (register crypto env email password name db).1.blacklist ≡ db.blacklist
  unfolding register Users.create create_email_verification_token
  registers-keeps email password name db = ground arith

  verifies-keeps :
      (raw : ℕ) (db : Database) → (verify_email crypto env raw db).1.blacklist ≡ db.blacklist
  unfolding verify_email Users.update delete_email_verification_token
  verifies-keeps raw db = ground arith

  forgets-keeps :
      (email : String) (db : Database)
      → (forgot_password crypto env email db).1.blacklist ≡ db.blacklist
  unfolding forgot_password create_password_reset_token delete_all_password_reset_tokens_for_user
  forgets-keeps email db = ground arith

  resets-keeps :
      (raw : ℕ) (password : String) (db : Database)
      → (reset_password crypto env raw password db).1.blacklist ≡ db.blacklist
  unfolding reset_password Users.update delete_password_reset_token
      revoke_all_refresh_tokens_for_user
  resets-keeps raw password db = ground arith

  abbrev pub logged_out : ℕ → ℕ → ℕ → BlacklistedToken
  logged_out user_id jti exp = record { jti = jti; user_id = user_id; expires_at = exp * 1000 }

  logs_out-blacklist :
      (user_id jti exp raw : ℕ) (db : Database)
      → ((logout crypto env user_id jti exp raw db).1.blacklist ≡ db.blacklist)
        ⊎ ((logout crypto env user_id jti exp raw db).1.blacklist
            ≡ logged_out user_id jti exp ∷ db.blacklist)
  unfolding logout add_to_blacklist revoke_refresh_token
  logs_out-blacklist user_id jti exp raw db = ground arith

  pub logs_out-adds :
      (user_id jti exp raw : ℕ) (db : Database)
      → (logout crypto env user_id jti exp raw db).0 ≡ ok tt
      → (logout crypto env user_id jti exp raw db).1.blacklist
        ≡ logged_out user_id jti exp ∷ db.blacklist
  unfolding logout add_to_blacklist revoke_refresh_token
  logs_out-adds user_id jti exp raw db h = ground arith

-- The job: rows whose time has passed are deleted.
unfoldable pub cleanup_expired_blacklisted_tokens : ℕ → Database → Database
cleanup_expired_blacklisted_tokens now db = record db {
  blacklist = keep (λ t. not (ltb t.expires_at now)) db.blacklist;
}

pub data Moment : Type 0 where
  calls : Event → Moment
  cleans_up : ℕ → Moment

-- The database after calls and runs of the job, in this order.
unfoldable pub after : Crypto → List Moment → Database → Database
unfolding perform cleanup_expired_blacklisted_tokens
after crypto [] db = db
after crypto (calls (env, call) ∷ ms) db = after crypto ms (perform crypto env call db)
after crypto (cleans_up now ∷ ms) db = after crypto ms (cleanup_expired_blacklisted_tokens now db)

-- No run of the job is later than this time.
abbrev pub CleansBefore : ℕ → List Moment → Type 0
CleansBefore now [] = Unit
CleansBefore now (calls e ∷ ms) = CleansBefore now ms
CleansBefore now (cleans_up at ∷ ms) = (at ≤ now) × CleansBefore now ms

perform-mem :
    (crypto : Crypto) (env : Env) (call : Call) (db : Database) (b : BlacklistedToken)
    → Memᴰ b db.blacklist
    → Memᴰ b (perform crypto env call db).blacklist
unfolding perform revoke_all_sessions revoke_all_refresh_tokens_for_user
perform-mem crypto env (signs_in u device) db b m = rw (signs_in-same crypto env u device db) m
perform-mem crypto env (refreshes raw device) db b m =
    rw (refreshes-same crypto env raw device db) m
perform-mem crypto env (logs_out user_id jti exp raw) db b m =
    elim (logs_out-blacklist crypto env user_id jti exp raw db) [
      | inl e ↦ rw e m
      | inr e ↦ rw e (Memᴰ.tail m)
    ]
perform-mem crypto env (revokes_session user_id id) db b m =
    rw (revokes_session-same crypto env user_id id db) m
perform-mem crypto env (revokes_all user_id) db b m = m
perform-mem crypto env (registers email password name) db b m =
    rw (registers-keeps crypto env email password name db) m
perform-mem crypto env (verifies_email raw) db b m = rw (verifies-keeps crypto env raw db) m
perform-mem crypto env (forgets_password email) db b m = rw (forgets-keeps crypto env email db) m
perform-mem crypto env (resets_password raw password) db b m =
    rw (resets-keeps crypto env raw password db) m

keep-mem :
    (p : BlacklistedToken → Bool) (bs : List BlacklistedToken) {b : BlacklistedToken}
    → p b ≡ true
    → Memᴰ b bs
    → Memᴰ b (keep p bs)
keep-mem p [] h m = elim m [ ]
keep-mem p (x ∷ bs) {b} h (Memᴰ.head same) = rw (ap p (sym same) ∙ h) (Memᴰ.head same)
keep-mem p (x ∷ bs) h (Memᴰ.tail m) = elim (Bool-cases (p x)) [
  | inl e ↦ rw e (Memᴰ.tail (keep-mem p bs h m))
  | inr e ↦ rw e (keep-mem p bs h m)
]

cleanup-mem :
    (at now : ℕ) (db : Database) (b : BlacklistedToken)
    → at ≤ now
    → now ≤ b.expires_at
    → Memᴰ b db.blacklist
    → Memᴰ b (cleanup_expired_blacklisted_tokens at db).blacklist
unfolding cleanup_expired_blacklisted_tokens
cleanup-mem at now db b before unexpired m =
    keep-mem (λ t. not (ltb t.expires_at at)) db.blacklist (ground arith) m

pub after-mem :
    (crypto : Crypto) (ms : List Moment) (now : ℕ) (db : Database) (b : BlacklistedToken)
    → CleansBefore now ms
    → now ≤ b.expires_at
    → Memᴰ b db.blacklist
    → Memᴰ b (after crypto ms db).blacklist
unfolding after
after-mem crypto [] now db b past unexpired m = m
after-mem crypto (calls (env, call) ∷ ms) now db b past unexpired m =
    after-mem crypto ms now _ b past unexpired (perform-mem crypto env call db b m)
after-mem crypto (cleans_up at ∷ ms) now db b past unexpired m =
    after-mem crypto ms now _ b past.1 unexpired (cleanup-mem at now db b past.0 unexpired m)

pub mem-is_blacklisted :
    (db : Database) (b : BlacklistedToken) → Memᴰ b db.blacklist → is_blacklisted b.jti db ≡ true
unfolding is_blacklisted
mem-is_blacklisted db b m = elim (Option-cases (find (λ t. t.jti == b.jti) db.blacklist)) [
  | inl e ↦ absurd (cc (find-none (λ t. t.jti == b.jti) db.blacklist e m, ==_refl b.jti))
  | inr (t, e) ↦ ap is_some e
]
