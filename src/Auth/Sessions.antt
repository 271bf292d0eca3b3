-- ===== src/Auth/Sessions.antt =====
-- src/modules/auth/auth.service.ts: logout and the list of a user's devices.
use backend_foundation.Prelude.{
  ℕ, ◌*◌, ◌==◌, Bool, false, String, Option, none, some, List, map, is_some, if◌then◌else◌,
}
use backend_foundation.UserAgent.{parse_user_agent}
use backend_foundation.Auth.Data.{RefreshToken, Database, Env, Crypto, session_not_found}
use backend_foundation.Auth.Monad.{M, pure, throw, ◌>>=◌, ◌>>◌, gets, modify, or_throw}
use backend_foundation.Auth.Repository.{
  find_refresh_token_by_hash, find_refresh_token_by_id, find_active_sessions_for_user,
  revoke_refresh_token, revoke_all_refresh_tokens_for_user, add_to_blacklist,
}

-- Revokes the row unless it is revoked already.
unfoldable pub revoke_if_needed : Env → RefreshToken → M Database (Unit {0})
revoke_if_needed env t = if is_some t.revoked_at then pure tt else revoke_refresh_token env.now t.id

-- `!storedToken || storedToken.userId !== userId` is answered in silence.
unfoldable pub logout_stored : Env → ℕ → Option RefreshToken → M Database (Unit {0})
unfolding revoke_if_needed
logout_stored env user_id none = pure tt
logout_stored env user_id (some t) =
    if t.user_id == user_id then revoke_if_needed env t else pure tt

unfoldable pub logout : Crypto → Env → ℕ → ℕ → ℕ → ℕ → M Database (Unit {0})
unfolding logout_stored
logout crypto env user_id access_jti access_exp raw_token = do
  add_to_blacklist (record { jti = access_jti; user_id = user_id; expires_at = access_exp * 1000 })
  found ← gets (find_refresh_token_by_hash (crypto.hash_secure_token raw_token))
  logout_stored env user_id found

unfoldable pub revoke_session : Env → ℕ → ℕ → M Database (Unit {0})
unfolding revoke_if_needed
revoke_session env user_id session_id = do
  found ← gets (find_refresh_token_by_id session_id)
  t ← or_throw found session_not_found
  if t.user_id == user_id then revoke_if_needed env t else throw session_not_found

unfoldable pub revoke_all_sessions : Env → ℕ → M Database (Unit {0})
revoke_all_sessions env user_id = modify (revoke_all_refresh_tokens_for_user env.now user_id)

-- SessionDto of src/modules/auth/auth.dto.ts.
pub record Session : Type 0 where
  pub id : ℕ
  pub user_agent : Option String
  pub browser : Option String
  pub operating_system : Option String
  pub device_name : String
  pub ip_address : Option String
  pub created_at : ℕ
  pub last_active : ℕ
  pub expires_at : ℕ
  pub is_current : Bool

-- `null` equals no hash.
abbrev pub same_hash : Option ℕ → ℕ → Bool
same_hash none hash = false
same_hash (some h) hash = hash == h

unfoldable pub to_session : Option ℕ → RefreshToken → Session
to_session current t =
    let parsed = parse_user_agent t.user_agent in
    record {
      id = t.id;
      user_agent = t.user_agent;
      browser = parsed.browser;
      operating_system = parsed.operating_system;
      device_name = parsed.device_name;
      ip_address = t.ip_address;
      created_at = t.created_at;
      last_active = t.created_at;
      expires_at = t.expires_at;
      is_current = same_hash current t.token_hash;
    }

abbrev pub hash_current : Crypto → Option ℕ → Option ℕ
hash_current crypto none = none
hash_current crypto (some raw) = some (crypto.hash_secure_token raw)

unfoldable pub list_sessions : Crypto → Env → ℕ → Option ℕ → Database → List Session
unfolding to_session
list_sessions crypto env user_id current_raw db =
    map (to_session (hash_current crypto current_raw))
      (find_active_sessions_for_user env.now user_id db)
