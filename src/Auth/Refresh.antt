-- ===== src/Auth/Refresh.antt =====
-- src/modules/auth/auth.service.ts: issuing and rotating refresh tokens. All reads of the clock
-- within one call are one reading, `env.now`.
use backend_foundation.Prelude.{
  ℕ, ◌+◌, ◌*◌, ◌==◌, Bool, false, not, ltb, String, Option, none, some, ◌∷◌, is_some, or_else,
  if◌then◌else◌,
}
use backend_foundation.UserAgent.{parse_user_agent}
use backend_foundation.Auth.Data.{
  User, RefreshToken, DeviceContext, suspicious_login, suspicious_login_detected, Database, Env,
  Crypto, access, refresh_token_invalid, refresh_token_revoked, refresh_token_expired,
  session_too_old,
}
use backend_foundation.Auth.Monad.{M, pure, throw, ◌>>=◌, ◌>>◌, gets, modify, or_throw}
use backend_foundation.Auth.Users
use backend_foundation.Auth.Repository.{
  create_refresh_token, find_refresh_token_by_hash, count_refresh_tokens_for_user, has_known_device,
  revoke_refresh_token_if_active, revoke_refresh_token_family,
}

abbrev pub refresh_token_ttl_ms : ℕ
refresh_token_ttl_ms = 7 * 24 * 60 * 60 * 1000

abbrev pub absolute_session_max_ms : ℕ
absolute_session_max_ms = 30 * 24 * 60 * 60 * 1000

-- `deviceContext?.userAgent ?? null`
abbrev pub user_agent_of : Option DeviceContext → Option String
user_agent_of none = none
user_agent_of (some d) = d.user_agent

abbrev pub ip_address_of : Option DeviceContext → Option String
ip_address_of none = none
ip_address_of (some d) = d.ip_address

-- What the client receives, without the profile that goes along.
pub record TokenPair : Type 0 where
  pub access_token : ℕ
  pub refresh_token : ℕ

-- A text that JavaScript takes for true.
abbrev pub non_empty : Option String → Option String
non_empty none = none
non_empty (some String.[]) = none
non_empty (some (String.◌∷◌ c s)) = some (String.◌∷◌ c s)

abbrev pub device_is_new : ℕ → Option String → Option String → Database → Bool
device_is_new user_id none ip db = false
device_is_new user_id (some ua) none db = false
device_is_new user_id (some ua) (some ip) db =
    if count_refresh_tokens_for_user user_id db == 0
    then false
    else not (has_known_device user_id ua ip db)

unfoldable pub is_new_device_for_existing_user : ℕ → Option DeviceContext → Database → Bool
is_new_device_for_existing_user user_id device =
    device_is_new user_id (non_empty (user_agent_of device)) (non_empty (ip_address_of device))

-- Both effects are wrapped in one `try` whose errors are logged and dropped.
unfoldable pub record_suspicious_login : User → Option DeviceContext → Database → Database
record_suspicious_login u device db = record db {
  audit_log =
      suspicious_login_detected u.id (user_agent_of device) (ip_address_of device) ∷ db.audit_log;
  outbox =
      suspicious_login u.email (some (parse_user_agent (user_agent_of device)).device_name)
        (ip_address_of device)
      ∷ db.outbox;
}

-- What the guards of `refresh` make of the stored token.
pub data Verdict : Type 0 where
  reused expired too_old usable : Verdict

unfoldable pub check_stored : ℕ → RefreshToken → Verdict
check_stored now t =
    if is_some t.revoked_at
    then reused
    else if ltb t.expires_at now
    then expired
    else if ltb t.family_session_expires_at now
    then too_old
    else usable

-- Reuse is answered by revoking the whole family.
unfoldable pub reject_reuse : ℕ → RefreshToken → M Database TokenPair
reject_reuse now t = do
  modify (revoke_refresh_token_family now t.family_id)
  throw refresh_token_revoked

module _ (crypto : Crypto) where
  -- The row of a new refresh token. A login starts a family; a rotation passes on the family and
  -- its deadline.
  unfoldable pub refresh_row : Env → ℕ → Option DeviceContext → Option ℕ → Option ℕ → RefreshToken
  refresh_row env user_id device family deadline = record {
    id = env.fresh_id;
    token_hash = crypto.hash_secure_token env.fresh_token;
    user_id = user_id;
    expires_at = env.now + refresh_token_ttl_ms;
    revoked_at = none;
    created_at = env.now;
    user_agent = user_agent_of device;
    ip_address = ip_address_of device;
    family_id = or_else family env.fresh_family;
    family_session_expires_at = or_else deadline (env.now + absolute_session_max_ms);
  }

  unfoldable pub issue_refresh_token :
      Env → ℕ → Option DeviceContext → Option ℕ → Option ℕ → M Database ℕ
  unfolding refresh_row
  issue_refresh_token env user_id device family deadline = do
    create_refresh_token (refresh_row env user_id device family deadline)
    pure env.fresh_token

  unfoldable pub issue_tokens_for_user : Env → User → Option DeviceContext → M Database TokenPair
  unfolding issue_refresh_token record_suspicious_login is_new_device_for_existing_user
  issue_tokens_for_user env u device = do
    let access_token = crypto.sign (access u.id u.email u.role env.fresh_jti) env.now
    suspicious ← gets (is_new_device_for_existing_user u.id device)
    refresh_token ← issue_refresh_token env u.id device none none
    modify (λ db. if suspicious then record_suspicious_login u device db else db)
    pure (record { access_token = access_token; refresh_token = refresh_token })

  -- The tail of a rotation: the new row has the family and the deadline of the old one.
  unfoldable pub issue_rotated :
      Env → RefreshToken → Option DeviceContext → User → M Database TokenPair
  unfolding issue_refresh_token
  issue_rotated env t device u = do
    let access_token = crypto.sign (access u.id u.email u.role env.fresh_jti) env.now
    refresh_token ←
        issue_refresh_token env u.id device (some t.family_id) (some t.family_session_expires_at)
    pure (record { access_token = access_token; refresh_token = refresh_token })

  -- The old token is revoked before the new one is made, and only by the request that finds it
  -- active still.
  unfoldable pub rotate : Env → RefreshToken → Option DeviceContext → M Database TokenPair
  unfolding reject_reuse issue_rotated
  rotate env t device = do
    found ← gets (Users.find_by_id t.user_id)
    u ← or_throw found refresh_token_invalid
    still_active ← revoke_refresh_token_if_active env.now t.id
    if still_active then issue_rotated env t device u else reject_reuse env.now t

  unfoldable pub refresh_stored : Env → RefreshToken → Option DeviceContext → M Database TokenPair
  unfolding rotate check_stored
  refresh_stored env t device = elim (check_stored env.now t) [
    | reused ↦ reject_reuse env.now t
    | expired ↦ throw refresh_token_expired
    | too_old ↦ do modify (revoke_refresh_token_family env.now t.family_id); throw session_too_old
    | usable ↦ rotate env t device
  ]

  unfoldable pub refresh : Env → ℕ → Option DeviceContext → M Database TokenPair
  unfolding refresh_stored
  refresh env raw_token device = do
    found ← gets (find_refresh_token_by_hash (crypto.hash_secure_token raw_token))
    t ← or_throw found refresh_token_invalid
    refresh_stored env t device
