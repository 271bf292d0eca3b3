-- ===== src/Gate/Tenants.antt =====
-- src/modules/tenants: the tenants table, with tenant.repository.ts, tenant.service.ts, and
-- src/shared/tenant/tenant-status.ts, tenant-plan.ts and tenant-binding.ts.
use text.Mathlib.Text.{◌==◌ as str_eq}
use backend_foundation.Prelude.{
  ℕ, ◌==◌, String, Bool, true, false, not, ◌&&◌, Option, none, some, List, ◌∷◌, map, find, is_some,
  if◌then◌else◌,
}
use backend_foundation.Auth.Data.{
  Role, user, organizer, admin, tenant_denied, tenant_inactive, tenant_not_found, slug_taken,
  unique_violation, record_not_found,
}
use backend_foundation.Auth.Monad.{
  M, Result, ok, err, pure, throw, ◌>>=◌, ◌>>◌, gets, modify_unless,
}
use backend_foundation.Cache.{CacheRedis, get_or_set_cache, invalidate_cache}
use backend_foundation.Gate.Limits.{TenantPlanName}

pub data TenantStatus : Type 0 where
  active suspended : TenantStatus

pub record Tenant : Type 0 where
  pub id : ℕ
  pub slug : String
  pub name : String
  pub plan : TenantPlanName
  pub status : TenantStatus
  pub deleted_at : Option ℕ

abbrev pub is_active_status : TenantStatus → Bool
is_active_status active = true
is_active_status suspended = false

abbrev pub tenant_is_live : Tenant → Bool
tenant_is_live t = not (is_some t.deleted_at)

unfoldable pub find_tenant_by_slug : String → List Tenant → Option Tenant
find_tenant_by_slug slug ts = find (λ t. str_eq t.slug slug && tenant_is_live t) ts

unfoldable pub find_tenant_by_id : ℕ → List Tenant → Option Tenant
find_tenant_by_id id ts = find (λ t. t.id == id && tenant_is_live t) ts

-- `prisma.tenant.create`: `slug` is unique over all rows.
unfoldable pub create_tenant : Tenant → M (List Tenant) Tenant
create_tenant row = do
  taken ← gets (λ ts. is_some (find (λ t. str_eq t.slug row.slug) ts))
  modify_unless taken unique_violation (λ ts. row ∷ ts)
  pure row

-- `prisma.tenant.update` by id.
unfoldable pub update_tenant : ℕ → (Tenant → Tenant) → M (List Tenant) (Unit {0})
update_tenant id change ts =
    modify_unless (not (is_some (find (λ t. t.id == id) ts))) record_not_found
      (map (λ t. if t.id == id then change t else t)) ts

-- TenantService.create, for a row that `prisma` would make of the input.
unfoldable pub register_tenant : Tenant → M (List Tenant) Tenant
unfolding create_tenant
register_tenant row = do
  existing ← gets (find_tenant_by_slug row.slug)
  if is_some existing then throw slug_taken else create_tenant row

abbrev pub active_or_throw : Option Tenant → Result Tenant
active_or_throw none = err tenant_inactive
active_or_throw (some t) = if is_active_status t.status then ok t else err tenant_inactive

unfoldable pub resolve_active_tenant_by_id : ℕ → List Tenant → Result Tenant
resolve_active_tenant_by_id id ts = active_or_throw (find_tenant_by_id id ts)

abbrev pub tenant_cache_ttl_seconds : ℕ
tenant_cache_ttl_seconds = 30

-- The three kinds of keys of the tenant module; a value may be null.
pub record TenantCaches (R : Type 0) : Type 0 where
  pub by_slug : CacheRedis R String (Option Tenant)
  pub plan_by_id : CacheRedis R ℕ (Option TenantPlanName)
  pub status_by_id : CacheRedis R ℕ (Option TenantStatus)

abbrev pub slug_cache :
    {R : Type 0} → Option (TenantCaches R) → Option (CacheRedis R String (Option Tenant))
slug_cache none = none
slug_cache (some c) = some c.by_slug

abbrev pub plan_cache :
    {R : Type 0} → Option (TenantCaches R) → Option (CacheRedis R ℕ (Option TenantPlanName))
plan_cache none = none
plan_cache (some c) = some c.plan_by_id

abbrev pub status_cache :
    {R : Type 0} → Option (TenantCaches R) → Option (CacheRedis R ℕ (Option TenantStatus))
status_cache none = none
status_cache (some c) = some c.status_by_id

abbrev pub status_of : Option Tenant → Option TenantStatus
status_of none = none
status_of (some t) = some t.status

abbrev pub plan_of : Option Tenant → Option TenantPlanName
plan_of none = none
plan_of (some t) = some t.plan

abbrev pub status_is_active : Result (Option TenantStatus) → Bool
status_is_active (ok (some active)) = true
status_is_active (ok (some suspended)) = false
status_is_active (ok none) = false
status_is_active (err e) = false

abbrev pub resolved_tenant : Result (Option Tenant) → Result Tenant
resolved_tenant (ok o) = active_or_throw o
resolved_tenant (err e) = err e

module _ {R : Type 0} (caches : Option (TenantCaches R)) (now : ℕ) (ts : List Tenant) where
  unfoldable pub resolve_active_tenant_by_slug : String → R → Result Tenant × R
  unfolding find_tenant_by_slug get_or_set_cache
  resolve_active_tenant_by_slug slug r =
      let a =
        get_or_set_cache (slug_cache caches) now slug tenant_cache_ttl_seconds
          (ok (find_tenant_by_slug slug ts)) r in
      (resolved_tenant a.0, a.1)

  -- A missing tenant has a status of its own, which is not ACTIVE.
  unfoldable pub is_active_by_id : ℕ → R → Bool × R
  unfolding find_tenant_by_id get_or_set_cache
  is_active_by_id id r =
      let a =
        get_or_set_cache (status_cache caches) now id tenant_cache_ttl_seconds
          (ok (status_of (find_tenant_by_id id ts))) r in
      (status_is_active a.0, a.1)

  -- resolvePlanById
  unfoldable pub resolve_plan_by_id : ℕ → R → Result (Option TenantPlanName) × R
  unfolding find_tenant_by_id get_or_set_cache
  resolve_plan_by_id id r =
      get_or_set_cache (plan_cache caches) now id tenant_cache_ttl_seconds
        (ok (plan_of (find_tenant_by_id id ts))) r

  unfoldable pub is_tenant_active_for_api_key : Option ℕ → R → Bool × R
  unfolding is_active_by_id
  is_tenant_active_for_api_key none r = (true, r)
  is_tenant_active_for_api_key (some id) r = is_active_by_id id r

  abbrev pub plan_or_null : Result (Option TenantPlanName) → Option TenantPlanName
  plan_or_null (ok p) = p
  plan_or_null (err e) = none

  unfoldable pub resolve_tenant_plan_safe : Option ℕ → R → Option TenantPlanName × R
  unfolding resolve_plan_by_id
  resolve_tenant_plan_safe none r = (none, r)
  resolve_tenant_plan_safe (some id) r = let a = resolve_plan_by_id id r in (plan_or_null a.0, a.1)

-- updateStatus and updatePlan: the row, then the keys that were read from it.
module _ {R : Type 0} (caches : Option (TenantCaches R)) where
  -- A write that throws leaves the caches alone.
  abbrev pub after_write :
      (R → R) → R → Result (Unit {0}) × List Tenant → Result (Unit {0}) × (List Tenant × R)
  after_write forget r (ok done, ts) = (ok done, (ts, forget r))
  after_write forget r (err e, ts) = (err e, (ts, r))

  abbrev pub after_update :
      (Tenant → R → R) → ℕ → (Tenant → Tenant) → Option Tenant → M (List Tenant × R) (Unit {0})
  after_update forget id change none (ts, r) = (err tenant_not_found, (ts, r))
  after_update forget id change (some t) (ts, r) =
      after_write (forget t) r (update_tenant id change ts)

  unfoldable pub update_status : ℕ → TenantStatus → M (List Tenant × R) (Unit {0})
  unfolding update_tenant invalidate_cache find_tenant_by_id
  update_status id status (ts, r) =
      after_update
        (λ t r'.
          invalidate_cache (status_cache caches) id
            (invalidate_cache (slug_cache caches) t.slug r'))
        id (λ t. record t { status = status }) (find_tenant_by_id id ts) (ts, r)

  unfoldable pub update_plan : ℕ → TenantPlanName → M (List Tenant × R) (Unit {0})
  unfolding update_tenant invalidate_cache find_tenant_by_id
  update_plan id plan (ts, r) =
      after_update
        (λ t r'.
          invalidate_cache (plan_cache caches) id (invalidate_cache (slug_cache caches) t.slug r'))
        id (λ t. record t { plan = plan }) (find_tenant_by_id id ts) (ts, r)

abbrev pub is_admin : Role → Bool
is_admin admin = true
is_admin organizer = false
is_admin user = false

abbrev pub bound_allows : Option ℕ → ℕ → Role → Bool
bound_allows none requested role = is_admin role
bound_allows (some bound) requested role = bound == requested

-- `assertTenantBinding`
unfoldable pub assert_tenant_binding : Option ℕ → Option ℕ → Role → Result (Unit {0})
assert_tenant_binding none bound role = ok tt
assert_tenant_binding (some requested) bound role =
    if bound_allows bound requested role then ok tt else err tenant_denied

-- `softDelete`, which no service calls.
unfoldable pub soft_delete_tenant : ℕ → ℕ → M (List Tenant) (Unit {0})
unfolding update_tenant
soft_delete_tenant now id = update_tenant id (λ t. record t { deleted_at = some now })
