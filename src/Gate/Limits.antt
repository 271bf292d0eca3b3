-- ===== src/Gate/Limits.antt =====
-- src/shared/security/rate-limit-tiers.ts and api-key-gateway.ts: the quota of an API key.
use backend_foundation.Prelude.{ℕ, zero, suc, ltb, Option, none, some, if◌then◌else◌}
use backend_foundation.Auth.Data.{quota_exceeded}
use backend_foundation.Auth.Monad.{Result, ok, err}

pub data TenantPlanName : Type 0 where
  free pro enterprise : TenantPlanName

pub record RateLimitTier : Type 0 where
  pub tenant_requests_per_15_min : ℕ
  pub api_key_requests_per_minute : ℕ

abbrev pub default_tenant_plan : TenantPlanName
default_tenant_plan = pro

-- With the value of API_KEY_GATEWAY_RATE_LIMIT_PER_MINUTE.
unfoldable pub tier : ℕ → TenantPlanName → RateLimitTier
tier gateway_limit free = record {
  tenant_requests_per_15_min = 200;
  api_key_requests_per_minute = 60;
}
tier gateway_limit pro = record {
  tenant_requests_per_15_min = 1000;
  api_key_requests_per_minute = gateway_limit;
}
tier gateway_limit enterprise = record {
  tenant_requests_per_15_min = 5000;
  api_key_requests_per_minute = 1200;
}

-- Null is no name of a plan.
unfoldable pub get_rate_limit_tier : ℕ → Option TenantPlanName → RateLimitTier
unfolding tier
get_rate_limit_tier gateway_limit none = tier gateway_limit default_tenant_plan
get_rate_limit_tier gateway_limit (some plan) = tier gateway_limit plan

abbrev pub window_seconds : ℕ
window_seconds = 60

-- The transaction `SET key 0 EX seconds NX; INCR key` at a time; `none` where it fails.
pub record CounterRedis (R : Type 0) : Type 0 where
  pub count : ℕ → ℕ → ℕ → R → Option (ℕ × R)

-- `rateLimitOverridePerMinute || …`: neither null nor 0 overrides.
abbrev pub limit_of : ℕ → Option TenantPlanName → Option ℕ → ℕ
limit_of gateway_limit plan none =
    (get_rate_limit_tier gateway_limit plan).api_key_requests_per_minute
limit_of gateway_limit plan (some zero) =
    (get_rate_limit_tier gateway_limit plan).api_key_requests_per_minute
limit_of gateway_limit plan (some (suc n)) = suc n

abbrev pub after_count : {R : Type 0} → ℕ → R → Option (ℕ × R) → Result (Unit {0}) × R
after_count limit r none = (ok tt, r)
after_count limit r (some (n, r')) = (if ltb limit n then err (quota_exceeded limit) else ok tt, r')

unfoldable pub enforce_partner_api_gateway_limit :
    {R : Type 0}
    → Option (CounterRedis R)
    → ℕ
    → ℕ
    → ℕ
    → Option TenantPlanName
    → Option ℕ
    → R
    → Result (Unit {0}) × R
unfolding get_rate_limit_tier
enforce_partner_api_gateway_limit none gateway_limit now key_id plan override r = (ok tt, r)
enforce_partner_api_gateway_limit (some api) gateway_limit now key_id plan override r =
    after_count (limit_of gateway_limit plan override) r (api.count now key_id window_seconds r)
