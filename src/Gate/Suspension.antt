-- ===== src/Gate/Suspension.antt =====
-- A suspended tenant, by the two ways to it: the slug in a header, and the key of an integration.
use backend_foundation.Prelude.{ℕ, ◌≡◌, ◌≢◌, ◌∙◌, ap, false, String, Option, some, List, map, arith}
use backend_foundation.Auth.Data.{tenant_inactive}
use backend_foundation.Auth.Monad.{Result, ok, err}
use backend_foundation.Auth.Refresh.{non_empty}
use backend_foundation.Cache.Laws.{get_or_set_cache-transparent}
use backend_foundation.Gate.Tenants.{
  Tenant, suspended, TenantCaches, slug_cache, status_cache, find_tenant_by_slug, find_tenant_by_id,
  update_status, is_active_by_id, is_tenant_active_for_api_key, resolve_active_tenant_by_slug,
  tenant_cache_ttl_seconds, status_is_active, resolved_tenant,
}
use backend_foundation.Gate.Keys.{ApiKey, find_key_by_hash}
use backend_foundation.Gate.Request.{
  Credentials, api_key, Surroundings, GateState, Identity, auth_middleware, resolve_tenant,
  resolve_by, enter, enter_as, slug_tenant,
}
use backend_foundation.Gate.Entry.{accepted-key}
use backend_foundation.Gate.TenantUpdate.{
  Works, forget, status-Coherent, slug-Coherent, with_status, update_status-found, suspended-by_id,
  suspended-by_slug,
}

suspended-key :
    {R : Type 0} (caches : Option (TenantCaches R)) (works : Works caches) (now id : ℕ)
    (ts : List Tenant) (r : R) (t : Tenant)
    → find_tenant_by_id id ts ≡ some t
    → (is_tenant_active_for_api_key caches now
        (map (with_status id suspended) ts)
        (some id)
        (forget 0 id t.slug r caches)).0
      ≡ false
unfolding is_tenant_active_for_api_key is_active_by_id
suspended-key caches works now id ts r t e = ap status_is_active (
    get_or_set_cache-transparent (status_cache caches) now id tenant_cache_ttl_seconds _ _
      (status-Coherent now id t.slug r caches works _)
    ∙ ap ok (suspended-by_id id ts t e))

suspended-slug :
    {R : Type 0} (caches : Option (TenantCaches R)) (works : Works caches) (now id : ℕ)
    (ts : List Tenant) (r : R) (t : Tenant)
    → find_tenant_by_id id ts ≡ some t
    → find_tenant_by_slug t.slug ts ≡ some t
    → (resolve_active_tenant_by_slug caches now
        (map (with_status id suspended) ts)
        t.slug
        (forget 0 id t.slug r caches)).0
      ≡ err tenant_inactive
unfolding resolve_active_tenant_by_slug
suspended-slug caches works now id ts r t e by =
    ap resolved_tenant (
      get_or_set_cache-transparent (slug_cache caches) now t.slug tenant_cache_ttl_seconds _ _
        (slug-Coherent now id t.slug r caches works _))
    ∙ suspended-by_slug id ts t e by

refused_slug :
    {R : Type 0} (out : Surroundings R) (now : ℕ) (c : Credentials) (s : GateState R)
    (a : Result Tenant × R)
    → a.0 ≡ err tenant_inactive
    → (enter_as out now c (slug_tenant out s a)).0 ≡ err tenant_inactive
refused_slug out now c s (ok t, r) h = cc
refused_slug out now c s (err e, r) h = ground arith

refused-by_slug :
    {R : Type 0} (out : Surroundings R) (now : ℕ) (slug : String) (c : Credentials)
    (s : GateState R)
    → non_empty (some slug) ≡ some slug
    → (resolve_active_tenant_by_slug out.caches now s.tenants slug s.redis).0 ≡ err tenant_inactive
    → (enter out now (some slug) c s).0 ≡ err tenant_inactive
unfolding enter resolve_tenant resolve_by
refused-by_slug out now slug c s text refused =
    ap (λ o. (enter_as out now c (resolve_by out now o c s)).0) text
    ∙ refused_slug out now c s _ refused

-- A suspension takes effect at once, in spite of the caches, where Redis deletes what it is told to:
-- `updateStatus` of a tenant that is there answers without an error, and after it no request with an
-- API key of the tenant gets through `authMiddleware`, and a request that names the tenant by its
-- slug is refused for its tenant, whatever credentials it has.
pub suspended_tenant_shut :
    {R : Type 0} (out : Surroundings R) (works : Works out.caches) (id : ℕ) (t : Tenant) (now : ℕ)
    (requested : Option ℕ) (raw : ℕ) (c : Credentials) (s after : GateState R) (k : ApiKey)
    (i : Identity)
    → find_tenant_by_id id s.tenants ≡ some t
    → find_tenant_by_slug t.slug s.tenants ≡ some t
    → non_empty (some t.slug) ≡ some t.slug
    → after.tenants ≡ (update_status out.caches id suspended (s.tenants, s.redis)).1.0
    → after.redis ≡ (update_status out.caches id suspended (s.tenants, s.redis)).1.1
    → find_key_by_hash (out.hash_key raw) after.keys ≡ some k
    → k.tenant_id ≡ some id
    → ((update_status out.caches id suspended (s.tenants, s.redis)).0 ≡ ok tt)
      × ((auth_middleware out now requested (api_key raw) after).0 ≢ ok i)
      × ((enter out now (some t.slug) c after).0 ≡ err tenant_inactive)
unfolding auth_middleware
suspended_tenant_shut out works id t now requested raw c s after k i e by text tenants redis stored
      of_tenant =
    let updated = update_status-found out.caches id suspended s.tenants s.redis t e in
    let tenants' : after.tenants ≡ map (with_status id suspended) s.tenants =
      tenants ∙ ap (λ p. p.1.0) updated in
    let redis' : after.redis ≡ forget 0 id t.slug s.redis out.caches =
      redis ∙ ap (λ p. p.1.1) updated in
    (
      ap (λ p. p.0) updated,
      λ accepted.
          let (key, found, active) = accepted-key out now requested raw after i accepted in
          let same_key : key ≡ k = cc (found, stored) in
          let inactive = suspended-key out.caches works now id s.tenants s.redis t e in
          cc (
            active,
            inactive,
            tenants',
            redis',
            ap (λ (x : ApiKey). x.tenant_id) same_key,
            of_tenant,
          ),
      refused-by_slug out now t.slug c after text
          (rw (tenants', redis') (suspended-slug out.caches works now id s.tenants s.redis t e by)),
    )
