-- ===== src/Auth/Reuse.antt =====
-- What `AuthService.refresh` promises of one call: rotation, reuse detection, the session's limit.
use backend_foundation.Prelude.{
  ℕ, ◌+◌, ◌<◌, ◌≤◌, ◌==◌, ◌≡◌, ◌≢◌, refl, true, false, Option, some, ◌∷◌, arith, All-intro,
}
use backend_foundation.Auth.Data.{
  User, RefreshToken, DeviceContext, Database, Env, Crypto, refresh_token_revoked, session_too_old,
  access,
}
use backend_foundation.Auth.Monad.{ok, err}
use backend_foundation.Auth.Users
use backend_foundation.Auth.Repository.{
  is_active, revoke_row, find_refresh_token_by_hash, revoke_refresh_token_family,
}
use backend_foundation.Auth.Refresh.{
  TokenPair, check_stored, refresh_token_ttl_ms, refresh_row, refresh,
}
use backend_foundation.Auth.Rows.{active_in, count-revoke_where, count-revoke_where_other}
use backend_foundation.Auth.Rotation.{
  with_tokens, claimed, family_revoked, usable-guards, rotated_row, refresh_cases,
}

-- All rows of the family are revoked, and no other family has lost an active row.
pub record FamilyRevoked (f : ℕ) (before after : Database) : Type 0 where
  pub dead : active_in f after.refresh_tokens ≡ 0
  pub others :
      (g : ℕ) → f ≢ g → active_in g after.refresh_tokens ≡ active_in g before.refresh_tokens

family_revoked-FamilyRevoked :
    (now f : ℕ) (db : Database) → FamilyRevoked f db (family_revoked now f db)
unfolding revoke_row
family_revoked-FamilyRevoked now f db = record {
  dead = count-revoke_where (λ t. t.family_id == f) now db.refresh_tokens (λ t. refl);
  others = λ g h.
      count-revoke_where_other (λ t. t.family_id == f) now (λ t. t.family_id == g) db.refresh_tokens
        (All-intro _ db.refresh_tokens (λ a m e. ground arith));
}

-- Presenting a refresh token that is revoked already fails with 401 and revokes every row of its
-- family, and of no other family.
pub refresh-reuse :
    (crypto : Crypto) (env : Env) (raw : ℕ) (device : Option DeviceContext) (db : Database)
    (t : RefreshToken)
    → find_refresh_token_by_hash (crypto.hash_secure_token raw) db ≡ some t
    → is_active t ≡ false
    → ((refresh crypto env raw device db).0 ≡ err refresh_token_revoked)
      × FamilyRevoked t.family_id db (refresh crypto env raw device db).1
unfolding refresh check_stored revoke_refresh_token_family
refresh-reuse crypto env raw device db t e a =
    let same : refresh crypto env raw device db
        ≡ (err refresh_token_revoked, family_revoked env.now t.family_id db) =
      ground arith in
    rw same (refl, family_revoked-FamilyRevoked env.now t.family_id db)

-- A token that is active and unexpired, but whose family is past its deadline, is refused with 401,
-- and the whole family is revoked.
pub refresh_past_deadline :
    (crypto : Crypto) (env : Env) (raw : ℕ) (device : Option DeviceContext) (db : Database)
    (t : RefreshToken)
    → find_refresh_token_by_hash (crypto.hash_secure_token raw) db ≡ some t
    → is_active t ≡ true
    → env.now ≤ t.expires_at
    → t.family_session_expires_at < env.now
    → ((refresh crypto env raw device db).0 ≡ err session_too_old)
      × FamilyRevoked t.family_id db (refresh crypto env raw device db).1
unfolding refresh check_stored revoke_refresh_token_family
refresh_past_deadline crypto env raw device db t e a unexpired late =
    let same : refresh crypto env raw device db
        ≡ (err session_too_old, family_revoked env.now t.family_id db) =
      ground arith in
    rw same (refl, family_revoked-FamilyRevoked env.now t.family_id db)

-- What a successful refresh rests on, and what it leaves.
pub record Rotated (crypto : Crypto) (env : Env) (raw : ℕ) (device : Option DeviceContext)
    (db : Database) (pair : TokenPair) (after : Database) : Type 0 where
  pub old : RefreshToken
  pub owner : User
  pub stored : find_refresh_token_by_hash (crypto.hash_secure_token raw) db ≡ some old
  pub active : is_active old ≡ true
  pub unexpired : env.now ≤ old.expires_at
  pub in_session : env.now ≤ old.family_session_expires_at
  pub live_owner : Users.find_by_id old.user_id db ≡ some owner
  pub signed :
      pair.access_token ≡ crypto.sign (access owner.id owner.email owner.role env.fresh_jti) env.now
  pub handed_out : pair.refresh_token ≡ env.fresh_token
  pub new : RefreshToken
  pub table : after ≡ with_tokens db (new ∷ claimed env.now old.id db)
  pub new_active : is_active new ≡ true
  pub new_hash : new.token_hash ≡ crypto.hash_secure_token pair.refresh_token
  pub new_owner : new.user_id ≡ owner.id
  pub same_family : new.family_id ≡ old.family_id
  pub same_deadline : new.family_session_expires_at ≡ old.family_session_expires_at
  pub new_expiry : new.expires_at ≡ env.now + refresh_token_ttl_ms

-- A refresh succeeds only with the stored hash of a token that is active, unexpired and within its
-- family's deadline, and whose user is there; it revokes the rows with that token's id, adds one
-- active row for the pair that it hands out, in the same family with the same deadline, and changes
-- nothing else.
pub refresh_rotates :
    (crypto : Crypto) (env : Env) (raw : ℕ) (device : Option DeviceContext) (db : Database)
    (pair : TokenPair)
    → (refresh crypto env raw device db).0 ≡ ok pair
    → Rotated crypto env raw device db pair (refresh crypto env raw device db).1
unfolding refresh_row
refresh_rotates crypto env raw device db pair =
    refresh_cases crypto env device (λ r. r.0 ≡ ok pair → Rotated crypto env raw device db pair r.1)
      raw db (λ e. cc) (λ t s c e. cc) (λ e. cc) (λ t s c e. cc) (λ t e. cc)
      λ t u s c f e.
        let (active, unexpired, in_session) = usable-guards env.now t c in
        record {
          old = t;
          owner = u;
          stored = s;
          active = active;
          unexpired = unexpired;
          in_session = in_session;
          live_owner = f;
          signed = ground arith;
          handed_out = ground arith;
          new = rotated_row crypto env device t u;
          table = refl;
          new_active = refl;
          new_hash = ground arith;
          new_owner = refl;
          same_family = refl;
          same_deadline = refl;
          new_expiry = refl;
        }
