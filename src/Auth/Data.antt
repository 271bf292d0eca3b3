-- ===== src/Auth/Data.antt =====
-- The rows that src/modules/auth reads and writes (prisma/schema.prisma: User, RefreshToken,
-- EmailVerificationToken, PasswordResetToken, BlacklistedToken), the arguments of a request, and
-- the errors that src/modules/auth/auth.service.ts throws.
-- UUIDs, raw tokens, hashes and signed tokens are numbers that are only compared for equality;
-- times are milliseconds since the epoch.
use backend_foundation.Prelude.{ℕ, String, Bool, List, Option}

-- RoleName of src/shared/types/role.ts.
pub data Role : Type 0 where
  user organizer admin : Role

pub record User : Type 0 where
  pub id : ℕ
  pub email : String
  pub password : Option ℕ
  pub name : String
  pub role : Role
  pub email_verified_at : Option ℕ
  pub mfa_enabled : Bool
  pub mfa_secret : Option ℕ
  pub deleted_at : Option ℕ
  pub created_at : ℕ
  pub tenant_id : Option ℕ

pub record RefreshToken : Type 0 where
  pub id : ℕ
  pub token_hash : ℕ
  pub user_id : ℕ
  pub expires_at : ℕ
  pub revoked_at : Option ℕ
  pub created_at : ℕ
  pub user_agent : Option String
  pub ip_address : Option String
  pub family_id : ℕ
  pub family_session_expires_at : ℕ

-- EmailVerificationToken and PasswordResetToken have the same columns.
pub record OneTimeToken : Type 0 where
  pub id : ℕ
  pub token_hash : ℕ
  pub user_id : ℕ
  pub expires_at : ℕ

pub record BlacklistedToken : Type 0 where
  pub jti : ℕ
  pub user_id : ℕ
  pub expires_at : ℕ

pub record DeviceContext : Type 0 where
  pub user_agent : Option String
  pub ip_address : Option String

-- MfaRecoveryCode.
pub record RecoveryCode : Type 0 where
  pub id : ℕ
  pub user_id : ℕ
  pub code_hash : ℕ
  pub used_at : Option ℕ

-- Jobs handed to `enqueueEmailJob` (src/shared/queue/email.queue.ts).
pub data EmailJob : Type 0 where
  verification : String → ℕ → EmailJob
  password_reset : String → ℕ → EmailJob
  suspicious_login : String → Option String → Option String → EmailJob

-- Rows that `AuditService` writes for the login flow.
pub data AuditEvent : Type 0 where
  login_failed : ℕ → Option String → Option String → AuditEvent
  suspicious_login_detected : ℕ → Option String → Option String → AuditEvent

-- All that the service changes: the tables and the two outgoing queues.
pub record Database : Type 0 where
  pub users : List User
  pub refresh_tokens : List RefreshToken
  pub email_tokens : List OneTimeToken
  pub reset_tokens : List OneTimeToken
  pub recovery_codes : List RecoveryCode
  pub blacklist : List BlacklistedToken
  pub audit_log : List AuditEvent
  pub outbox : List EmailJob
  pub invalidated_profiles : List ℕ

-- One constructor for each `throw` of the services and guards, and those of Prisma: `record_not_found` (P2025),
-- which `update` and `delete` throw when no row has the key, and `unique_violation` (P2002), which
-- `create` throws when a row has the unique value already.
pub data AuthError : Type 0 where
  email_taken : AuthError
  too_many_attempts : ℕ → AuthError
  wrong_credentials : AuthError
  oauth_only_account : AuthError
  email_not_verified : AuthError
  challenge_invalid : AuthError
  mfa_code_invalid : AuthError
  refresh_token_invalid : AuthError
  refresh_token_revoked : AuthError
  refresh_token_expired : AuthError
  session_too_old : AuthError
  session_not_found : AuthError
  verification_token_invalid : AuthError
  reset_token_invalid : AuthError
  mfa_setup_missing : AuthError
  record_not_found : AuthError
  unique_violation : AuthError
  -- `authMiddleware` and what it calls
  token_missing token_expired token_invalid token_revoked user_missing : AuthError
  -- a query by a key that is undefined, which Prisma refuses
  query_invalid : AuthError
  tenant_denied tenant_inactive tenant_not_found slug_taken : AuthError
  key_invalid key_revoked key_expired key_owner_missing key_not_found : AuthError
  scope_exceeds expiry_not_future : AuthError
  quota_exceeded : ℕ → AuthError
  -- logins through Google and GitHub
  provider_not_configured provider_token_invalid provider_code_invalid : AuthError
  provider_profile_failed provider_email_missing account_missing : AuthError
  -- a request to a provider, or a command of Redis, that fails
  remote_failed : AuthError
  -- logins through the identity provider of a tenant
  sso_not_configured sso_not_active sso_denied sso_code_missing sso_state_invalid : AuthError
  sso_state_mismatch sso_email_missing sso_domain_refused sso_other_tenant : AuthError
  sso_exchange_invalid : AuthError
  -- the products
  price_negative product_not_found product_not_owned product_not_active : AuthError
  product_sold_out category_not_higher : AuthError
  -- the exports
  export_type_denied export_not_found export_without_tenant export_failed : AuthError

-- The status code of the error's class (src/shared/utils/http-error.ts); an error of Prisma is no
-- HttpError, so src/shared/middlewares/error-handler.ts answers 500.
unfoldable pub http_status : AuthError → ℕ
http_status email_taken = 409
http_status (too_many_attempts minutes) = 429
http_status email_not_verified = 403
http_status session_not_found = 404
http_status mfa_setup_missing = 400
http_status record_not_found = 500
http_status unique_violation = 500
http_status query_invalid = 500
http_status tenant_denied = 403
http_status tenant_inactive = 403
http_status tenant_not_found = 404
http_status slug_taken = 409
http_status key_owner_missing = 404
http_status key_not_found = 404
http_status scope_exceeds = 403
http_status expiry_not_future = 400
http_status (quota_exceeded limit) = 429
http_status provider_not_configured = 400
http_status remote_failed = 500
http_status sso_not_configured = 400
http_status sso_not_active = 400
http_status sso_code_missing = 400
http_status sso_domain_refused = 403
http_status sso_other_tenant = 403
http_status price_negative = 400
http_status product_not_found = 404
http_status product_not_owned = 403
http_status product_not_active = 400
http_status product_sold_out = 400
http_status category_not_higher = 400
http_status export_type_denied = 403
http_status export_not_found = 404
http_status export_without_tenant = 500
http_status export_failed = 500
http_status _ = 401

-- What a call draws from outside: the clock, fresh random values, and the tenant of the request
-- (`getTenantContext`). One call issues at most one token of each kind.
pub record Env : Type 0 where
  pub now : ℕ
  pub fresh_id : ℕ
  pub fresh_token : ℕ
  pub fresh_family : ℕ
  pub fresh_jti : ℕ
  pub tenant_id : Option ℕ

-- Claims of a signed token: an access token, or an MFA challenge.
pub data Claims : Type 0 where
  access : ℕ → String → Role → ℕ → Claims
  mfa_challenge : ℕ → Claims

-- sha256, bcrypt, jsonwebtoken (at a time), the cipher of secrets at rest, and otplib (a code, a
-- secret, a time).
pub record Crypto : Type 0 where
  pub hash_secure_token : ℕ → ℕ
  pub hash_password : String → ℕ
  pub compare_password : String → ℕ → Bool
  pub sign : Claims → ℕ → ℕ
  pub verify : ℕ → ℕ → Option Claims
  pub encrypt : ℕ → ℕ
  pub decrypt : ℕ → ℕ
  pub check_totp : String → ℕ → ℕ → Bool
