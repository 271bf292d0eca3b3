-- ===== src/Gate/ActiveTenant.antt =====
-- src/shared/tenant/tenant-status.ts: when the tenant of a key counts as active.
use backend_foundation.Prelude.{ℕ, ◌≡◌, refl, ◌∙◌, ap, true, Option, none, some, List}
use backend_foundation.Auth.Monad.{Result, ok}
use backend_foundation.Cache.{after_get}
use backend_foundation.Gate.Tenants.{
  Tenant, TenantStatus, active, suspended, TenantCaches, find_tenant_by_id, status_of,
  status_is_active, is_active_by_id, is_tenant_active_for_api_key, tenant_cache_ttl_seconds,
}

-- A key of no tenant; the text ACTIVE in Redis under the key of the tenant; or, where Redis has no
-- value for it, the row of the tenant, which is there and says ACTIVE.
pub data ActiveTenant {R : Type 0} (caches : Option (TenantCaches R)) (now : ℕ) (ts : List Tenant)
    (r : R) : Option ℕ → Type 0 where
  no_tenant : ActiveTenant caches now ts r none
  cached :
      (id : ℕ) (c : TenantCaches R)
      → caches ≡ some c
      → c.status_by_id.get now id r ≡ some (some (some active))
      → ActiveTenant caches now ts r (some id)
  stored :
      (id : ℕ) (t : Tenant)
      → find_tenant_by_id id ts ≡ some t
      → t.status ≡ active
      → ActiveTenant caches now ts r (some id)

active-status :
    (o : Option Tenant) (a : Result (Option TenantStatus))
    → a ≡ ok (status_of o)
    → status_is_active a ≡ true
    → (t : Tenant) × (o ≡ some t) × (t.status ≡ active)
active-status none a e h = absurd (cc (rw e at h))
active-status (some t) a e h = (t, refl, is_active t.status (rw e at h))
  where
    is_active : (s : TenantStatus) → status_is_active (ok (some s)) ≡ true → s ≡ active
    is_active active h' = refl
    is_active suspended h' = cc h'

cached-active : (v : Option TenantStatus) → status_is_active (ok v) ≡ true → v ≡ some active
cached-active none h = cc h
cached-active (some active) h = refl
cached-active (some suspended) h = cc h

module _ {R : Type 0} (now : ℕ) (ts : List Tenant) (r : R) (id : ℕ) where
  -- Either Redis has the value, or the answer is that of the table.
  read-ActiveTenant :
      (c : TenantCaches R) (o : Option (Option (Option TenantStatus)))
      → c.status_by_id.get now id r ≡ o
      → status_is_active
          (after_get c.status_by_id now id tenant_cache_ttl_seconds
            (ok (status_of (find_tenant_by_id id ts)))
            r
            o).0
        ≡ true
      → ActiveTenant (some c) now ts r (some id)
  read-ActiveTenant c none e h =
      let (t, f, s) = active-status (find_tenant_by_id id ts) _ refl h in stored id t f s
  read-ActiveTenant c (some none) e h =
      let (t, f, s) = active-status (find_tenant_by_id id ts) _ refl h in stored id t f s
  read-ActiveTenant c (some (some v)) e h =
      cached id c refl (e ∙ ap (λ x. some (some x)) (cached-active v h))

  by_id-ActiveTenant :
      (caches : Option (TenantCaches R))
      → (is_active_by_id caches now ts id r).0 ≡ true
      → ActiveTenant caches now ts r (some id)
  unfolding is_active_by_id
  by_id-ActiveTenant none h =
      let (t, f, s) = active-status (find_tenant_by_id id ts) _ refl h in stored id t f s
  by_id-ActiveTenant (some c) h = read-ActiveTenant c (c.status_by_id.get now id r) refl h

-- A key whose tenant counts as active is of no tenant, or its tenant is active by the cached status,
-- or by its row.
pub active-ActiveTenant :
    {R : Type 0} (caches : Option (TenantCaches R)) (now : ℕ) (ts : List Tenant) (r : R)
    (tenant_id : Option ℕ)
    → (is_tenant_active_for_api_key caches now ts tenant_id r).0 ≡ true
    → ActiveTenant caches now ts r tenant_id
unfolding is_tenant_active_for_api_key
active-ActiveTenant caches now ts r none h = no_tenant
active-ActiveTenant caches now ts r (some id) h = by_id-ActiveTenant now ts r id caches h
