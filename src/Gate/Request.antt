-- ===== src/Gate/Request.antt =====
-- src/shared/utils/jwt.ts, src/shared/tenant/tenant.middleware.ts and
-- src/shared/middlewares/auth.middleware.ts: from the headers of a request to its tenant and its
-- user.
use backend_foundation.Prelude.{ℕ, ◌/◌, String, Bool, Option, none, some, List, if◌then◌else◌}
use backend_foundation.Auth.Data.{
  Role, User, Database, token_missing, token_expired, token_invalid, token_revoked, user_missing,
  query_invalid, tenant_inactive, key_owner_missing,
}
use backend_foundation.Auth.Monad.{Result, ok, err}
use backend_foundation.Auth.Users
use backend_foundation.Auth.Repository.{is_blacklisted}
use backend_foundation.Auth.Refresh.{non_empty}
use backend_foundation.Access.{Permission, RequestUser}
use backend_foundation.Gate.Limits.{CounterRedis, enforce_partner_api_gateway_limit}
use backend_foundation.Gate.Tenants.{
  Tenant, TenantCaches, resolve_active_tenant_by_slug, resolve_active_tenant_by_id,
  is_tenant_active_for_api_key, resolve_tenant_plan_safe, assert_tenant_binding,
}
use backend_foundation.Gate.Keys.{ApiKey, authenticate, find_tenant_id_by_raw_key}

-- The payload of a token that `sign` or `signMfaChallenge` has made; `exp` is in seconds.
pub data JwtPayload : Type 0 where
  access_payload : ℕ → String → Role → ℕ → ℕ → JwtPayload
  challenge_payload : ℕ → JwtPayload

pub data Verified : Type 0 where
  verified : JwtPayload → Verified
  expired invalid : Verified

-- The `Authorization` header: none, or one that does not start with `Bearer `; a key, which starts
-- with `bfk_`; any other token.
pub data Credentials : Type 0 where
  no_bearer : Credentials
  api_key jwt : ℕ → Credentials

-- What stands outside: `jsonwebtoken.verify` with a secret, a time and a token; sha256; the two
-- secrets, the quota of the PRO plan; the commands of Redis, if it is configured.
pub record Surroundings (R : Type 0) : Type 0 where
  pub jwt_verify : ℕ → ℕ → ℕ → Verified
  pub secret : ℕ
  pub previous_secret : Option ℕ
  pub hash_key : ℕ → ℕ
  pub gateway_limit : ℕ
  pub caches : Option (TenantCaches R)
  pub counter : Option (CounterRedis R)

-- The tables, and Redis.
pub record GateState (R : Type 0) : Type 0 where
  pub db : Database
  pub keys : List ApiKey
  pub tenants : List Tenant
  pub redis : R

pub data Jti : Type 0 where
  token_jti key_jti : ℕ → Jti

-- `req.user`; a key that does not expire has a time far off, which nothing reads.
pub record Identity : Type 0 where
  pub id : ℕ
  pub email : String
  pub role : Role
  pub jti : Jti
  pub exp : Option ℕ
  pub api_key_scopes : Option (List Permission)

abbrev pub request_user : Identity → RequestUser
request_user i = record { role = i.role; api_key_scopes = i.api_key_scopes }

module _ {R : Type 0} (out : Surroundings R) where
  abbrev pub or_previous : Option ℕ → ℕ → ℕ → Verified → Verified
  or_previous none now token v = v
  or_previous (some old) now token (verified p) = verified p
  or_previous (some old) now token expired = out.jwt_verify old now token
  or_previous (some old) now token invalid = out.jwt_verify old now token

  -- `jwtHelper.verify`
  unfoldable pub verify_token : ℕ → ℕ → Verified
  verify_token now token =
      or_previous out.previous_secret now token (out.jwt_verify out.secret now token)

  abbrev pub bind_owner : Option ℕ → Role → Option User → Result (Unit {0})
  bind_owner requested role none = err user_missing
  bind_owner requested role (some owner) = assert_tenant_binding requested owner.tenant_id role

  -- The owner is only looked up where a tenant is asked for.
  abbrev pub bind_tenant : Option ℕ → ℕ → Role → Database → Result (Unit {0})
  bind_tenant none id role db = ok tt
  bind_tenant (some t) id role db = bind_owner (some t) role (Users.find_by_id id db)

  abbrev pub identify : Identity → Result (Unit {0}) → Result Identity
  identify i (ok done) = ok i
  identify i (err e) = err e

  -- A challenge has no `jti`, and Prisma refuses to look for an undefined one.
  abbrev pub accept_payload : Option ℕ → Database → Verified → Result Identity
  accept_payload requested db expired = err token_expired
  accept_payload requested db invalid = err token_invalid
  accept_payload requested db (verified (challenge_payload user_id)) = err query_invalid
  accept_payload requested db (verified (access_payload id email role jti exp)) =
      if is_blacklisted jti db
      then err token_revoked
      else identify
          (record {
            id = id;
            email = email;
            role = role;
            jti = token_jti jti;
            exp = some exp;
            api_key_scopes = none;
          })
          (bind_tenant requested id role db)

  abbrev pub exp_of : Option ℕ → Option ℕ
  exp_of none = none
  exp_of (some at) = some (at / 1000)

  -- `tenantId ?? user.tenantId`
  abbrev pub own_tenant : Option ℕ → Option ℕ → Option ℕ
  own_tenant none user_tenant = user_tenant
  own_tenant (some t) user_tenant = some t

  abbrev pub accept_owner : Option ℕ → ApiKey → Option User → Result Identity
  accept_owner requested k none = err key_owner_missing
  accept_owner requested k (some u) =
      identify
        (record {
          id = u.id;
          email = u.email;
          role = u.role;
          jti = key_jti k.id;
          exp = exp_of k.expires_at;
          api_key_scopes = some k.scopes;
        })
        (assert_tenant_binding requested (own_tenant k.tenant_id u.tenant_id) u.role)

  abbrev pub with_redis : GateState R → R → GateState R
  with_redis s r = record s { redis = r }

  abbrev pub after_quota :
      Option ℕ → ApiKey → GateState R → Result (Unit {0}) × R → Result Identity × GateState R
  after_quota requested k s (ok done, r) =
      (accept_owner requested k (Users.find_by_id k.user_id s.db), with_redis s r)
  after_quota requested k s (err e, r) = (err e, with_redis s r)

  abbrev pub quota : ℕ → Option ℕ → ApiKey → GateState R → Result Identity × GateState R
  quota now requested k s =
      let plan = resolve_tenant_plan_safe out.caches now s.tenants k.tenant_id s.redis in
      after_quota requested k s (
        enforce_partner_api_gateway_limit out.counter out.gateway_limit now k.id plan.0
          k.rate_limit_override plan.1)

  abbrev pub after_active :
      ℕ → Option ℕ → ApiKey → GateState R → Bool × R → Result Identity × GateState R
  after_active now requested k s (live, r) =
      let next = quota now requested k (with_redis s r) in
      if live then next else (err tenant_inactive, with_redis s r)

  abbrev pub after_key :
      ℕ → Option ℕ → GateState R → Result ApiKey × List ApiKey → Result Identity × GateState R
  after_key now requested s (ok k, ks) =
      after_active now requested k (record s { keys = ks })
        (is_tenant_active_for_api_key out.caches now s.tenants k.tenant_id s.redis)
  after_key now requested s (err e, ks) = (err e, record s { keys = ks })

  unfoldable pub authenticate_with_api_key :
      ℕ → Option ℕ → ℕ → GateState R → Result Identity × GateState R
  unfolding authenticate is_tenant_active_for_api_key resolve_tenant_plan_safe
      enforce_partner_api_gateway_limit assert_tenant_binding
  authenticate_with_api_key now requested raw s =
      after_key now requested s (authenticate out.hash_key now raw s.keys)

  -- `authMiddleware`, for a request to this tenant.
  unfoldable pub auth_middleware :
      ℕ → Option ℕ → Credentials → GateState R → Result Identity × GateState R
  unfolding authenticate_with_api_key verify_token is_blacklisted assert_tenant_binding
  auth_middleware now requested no_bearer s = (err token_missing, s)
  auth_middleware now requested (api_key raw) s = authenticate_with_api_key now requested raw s
  auth_middleware now requested (jwt token) s =
      (accept_payload requested s.db (verify_token now token), s)

  abbrev pub tenant_id_of : Result Tenant → Result (Option ℕ)
  tenant_id_of (ok t) = ok (some t.id)
  tenant_id_of (err e) = err e

  abbrev pub key_tenant : List Tenant → Option ℕ → Result (Option ℕ)
  key_tenant ts none = ok none
  key_tenant ts (some id) = tenant_id_of (resolve_active_tenant_by_id id ts)

  abbrev pub slug_tenant : GateState R → Result Tenant × R → Result (Option ℕ) × GateState R
  slug_tenant s (t, r) = (tenant_id_of t, with_redis s r)

  -- The tenant of a header that has a text, or else that of the key.
  unfoldable pub resolve_by :
      ℕ → Option String → Credentials → GateState R → Result (Option ℕ) × GateState R
  unfolding resolve_active_tenant_by_slug resolve_active_tenant_by_id find_tenant_id_by_raw_key
  resolve_by now (some slug) c s =
      slug_tenant s (resolve_active_tenant_by_slug out.caches now s.tenants slug s.redis)
  resolve_by now none (api_key raw) s =
      (key_tenant s.tenants (find_tenant_id_by_raw_key out.hash_key now raw s.keys), s)
  resolve_by now none (jwt token) s = (ok none, s)
  resolve_by now none no_bearer s = (ok none, s)

  -- `resolveTenant`: the tenant that the request is run for.
  unfoldable pub resolve_tenant :
      ℕ → Option String → Credentials → GateState R → Result (Option ℕ) × GateState R
  unfolding resolve_by
  resolve_tenant now slug c s = resolve_by now (non_empty slug) c s

  abbrev pub enter_as :
      ℕ → Credentials → Result (Option ℕ) × GateState R → Result (Option ℕ × Identity) × GateState R
  enter_as now c (err e, s) = (err e, s)
  enter_as now c (ok requested, s) =
      let a = auth_middleware now requested c s in (paired requested a.0, a.1)
    where
      paired : Option ℕ → Result Identity → Result (Option ℕ × Identity)
      paired t (ok i) = ok (t, i)
      paired t (err e) = err e

  -- `tenantMiddleware`, then `authMiddleware`: the tenant and the user of a protected request.
  unfoldable pub enter :
      ℕ → Option String → Credentials → GateState R → Result (Option ℕ × Identity) × GateState R
  unfolding resolve_tenant auth_middleware
  enter now slug c s = enter_as now c (resolve_tenant now slug c s)
