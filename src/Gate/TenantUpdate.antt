-- ===== src/Gate/TenantUpdate.antt =====
-- TenantService.updateStatus (src/modules/tenants/tenant.service.ts): the table and the caches
-- after it.
use text.Mathlib.Text.{◌==◌ as str_eq}
use backend_foundation.Prelude.{
  ℕ, ◌==◌, ◌≡◌, ◌≢◌, refl, sym, ◌∙◌, ap, inl, inr, ◌&&◌, String, Option, none, some, List, map,
  Memᴰ, arith, find, find_sound, find-none, Option-cases, Bool-cases, ==_refl, if◌then◌else◌,
  or_else,
}
use backend_foundation.Auth.Data.{tenant_inactive}
use backend_foundation.Auth.Monad.{Result, ok, err}
use backend_foundation.Cache.{CacheRedis, invalidate_cache}
use backend_foundation.Cache.Laws.{Coherent}
use backend_foundation.Gate.Tenants.{
  Tenant, TenantStatus, suspended, TenantCaches, slug_cache, status_cache, tenant_is_live,
  find_tenant_by_slug, find_tenant_by_id, update_tenant, update_status, status_of, resolved_tenant,
  after_update, after_write, active_or_throw,
}
use backend_foundation.Gate.KeySteps.{find-map}

-- `DEL` works, and a key that was deleted is gone; it leaves the keys of the other kind alone.
pub record DelWorks {R : Type 0} (c : TenantCaches R) : Type 0 where
  pub slug_del : (slug : String) (r : R) → (r' : R) × (c.by_slug.del slug r ≡ some r')
  pub status_del : (id : ℕ) (r : R) → (r' : R) × (c.status_by_id.del id r ≡ some r')
  pub slug_gone :
      (now : ℕ) (slug : String) (r r' : R) (v : Option Tenant)
      → c.by_slug.del slug r ≡ some r'
      → c.by_slug.get now slug r' ≢ some (some v)
  pub status_gone :
      (now id : ℕ) (r r' : R) (v : Option TenantStatus)
      → c.status_by_id.del id r ≡ some r'
      → c.status_by_id.get now id r' ≢ some (some v)
  pub slug_stays :
      (now id : ℕ) (slug : String) (r r' : R)
      → c.status_by_id.del id r ≡ some r'
      → c.by_slug.get now slug r' ≡ c.by_slug.get now slug r

abbrev pub Works : {R : Type 0} → Option (TenantCaches R) → Type 0
Works none = Unit
Works (some c) = DelWorks c

invalidate_cache-del :
    {R K V : Type 0} (api : CacheRedis R K V) (key : K) (r r' : R)
    → api.del key r ≡ some r'
    → invalidate_cache (some api) key r ≡ r'
unfolding invalidate_cache
invalidate_cache-del api key r r' e = ap (λ o. or_else o r) e

-- After the two deletions neither key has a value, so both are read from the database.
module _ {R : Type 0} (now id : ℕ) (slug : String) (r : R) where
  abbrev pub forget : Option (TenantCaches R) → R
  forget caches =
      invalidate_cache (status_cache caches) id (invalidate_cache (slug_cache caches) slug r)

  forget-both :
      (c : TenantCaches R)
      → DelWorks c
      → (r' : R) × (c.by_slug.del slug r ≡ some r')
        × (c.status_by_id.del id r' ≡ some (forget (some c)))
  forget-both c works =
      let (r', slug_deleted) = works.slug_del slug r in
      let (r'', status_deleted) = works.status_del id r' in
      let first = invalidate_cache-del c.by_slug slug r r' slug_deleted in
      let second = invalidate_cache-del c.status_by_id id r' r'' status_deleted in
      (
        r',
        slug_deleted,
        status_deleted
            ∙ ap some (sym second ∙ ap (invalidate_cache (some c.status_by_id) id) (sym first)),
      )

  pub status-Coherent :
      (caches : Option (TenantCaches R))
      → Works caches
      → (fresh : Result (Option TenantStatus))
      → Coherent (status_cache caches) now id fresh (forget caches)
  status-Coherent none works fresh = tt
  status-Coherent (some c) works fresh = λ v held.
      let (r', slug_deleted, status_deleted) = forget-both c works in
      absurd (works.status_gone now id r' (forget (some c)) v status_deleted held)

  pub slug-Coherent :
      (caches : Option (TenantCaches R))
      → Works caches
      → (fresh : Result (Option Tenant))
      → Coherent (slug_cache caches) now slug fresh (forget caches)
  slug-Coherent none works fresh = tt
  slug-Coherent (some c) works fresh = λ v held.
      let (r', slug_deleted, status_deleted) = forget-both c works in
      let still = works.slug_stays now id slug r' (forget (some c)) status_deleted in
      absurd (works.slug_gone now slug r r' v slug_deleted (sym still ∙ held))

abbrev pub with_status : ℕ → TenantStatus → Tenant → Tenant
with_status id status t = if t.id == id then record t { status = status } else t

found-held :
    (id : ℕ) (ts : List Tenant) (t : Tenant)
    → find_tenant_by_id id ts ≡ some t
    → Memᴰ t ts × (t.id ≡ id)
unfolding find_tenant_by_id
found-held id ts t e =
    let (m, held) = find_sound (λ x. x.id == id && tenant_is_live x) ts e in
    (m, ground (arith, held))

update_tenant-there :
    (id : ℕ) (change : Tenant → Tenant) (ts : List Tenant) (t : Tenant)
    → Memᴰ t ts × (t.id ≡ id)
    → update_tenant id change ts ≡ (ok tt, map (λ x. if x.id == id then change x else x) ts)
unfolding update_tenant
update_tenant-there id change ts t (m, same) = elim (Option-cases (find (λ x. x.id == id) ts)) [
  | inl e ↦ absurd (cc (find-none (λ x. x.id == id) ts e m, ==_refl id, ap (λ n. n == id) same))
  | inr (x, e) ↦ ground arith
]

-- The tables and Redis after `updateStatus` of a tenant that is there.
pub update_status-found :
    {R : Type 0} (caches : Option (TenantCaches R)) (id : ℕ) (status : TenantStatus)
    (ts : List Tenant) (r : R) (t : Tenant)
    → find_tenant_by_id id ts ≡ some t
    → update_status caches id status (ts, r)
      ≡ (ok tt, (map (with_status id status) ts, forget 0 id t.slug r caches))
unfolding update_status
update_status-found caches id status ts r t e =
    ap
      (λ o.
        after_update caches
          (λ x r'.
            invalidate_cache (status_cache caches) id
              (invalidate_cache (slug_cache caches) x.slug r'))
          id (λ x. record x { status = status }) o (ts, r))
      e
    ∙ ap
        (after_write caches
          (λ r'.
            invalidate_cache (status_cache caches) id
              (invalidate_cache (slug_cache caches) t.slug r'))
          r)
        (update_tenant-there id (λ x. record x { status = status }) ts t (found-held id ts t e))

with_status-elim :
    (id : ℕ) (status : TenantStatus) (x : Tenant) (Q : Tenant → Type 0)
    → Q (record x { status = status })
    → Q x
    → Q (with_status id status x)
with_status-elim id status x Q changed same = elim (Bool-cases (x.id == id)) [
  | inl e ↦ rw e changed
  | inr e ↦ rw e same
]

with_status-at :
    (id : ℕ) (status : TenantStatus) (t : Tenant)
    → t.id ≡ id
    → (with_status id status t).status ≡ status
with_status-at id status t e = rw (ap (λ n. n == id) e ∙ ==_refl id) refl

pub suspended-by_id :
    (id : ℕ) (ts : List Tenant) (t : Tenant)
    → find_tenant_by_id id ts ≡ some t
    → status_of (find_tenant_by_id id (map (with_status id suspended) ts)) ≡ some suspended
unfolding find_tenant_by_id
suspended-by_id id ts t e =
    ap status_of (
      find-map (λ x. x.id == id && tenant_is_live x) (with_status id suspended) ts
        (λ x.
          with_status-elim id suspended x
            (λ y. (y.id == id && tenant_is_live y) ≡ (x.id == id && tenant_is_live x)) refl refl)
        e)
    ∙ ap some (with_status-at id suspended t (found-held id ts t e).1)

pub suspended-by_slug :
    (id : ℕ) (ts : List Tenant) (t : Tenant)
    → find_tenant_by_id id ts ≡ some t
    → find_tenant_by_slug t.slug ts ≡ some t
    → resolved_tenant (ok (find_tenant_by_slug t.slug (map (with_status id suspended) ts)))
      ≡ err tenant_inactive
unfolding find_tenant_by_slug
suspended-by_slug id ts t e by =
    ap active_or_throw (
      find-map (λ x. str_eq x.slug t.slug && tenant_is_live x) (with_status id suspended) ts
        (λ x.
          with_status-elim id suspended x
            (λ y.
              (str_eq y.slug t.slug && tenant_is_live y)
              ≡ (str_eq x.slug t.slug && tenant_is_live x))
            refl refl)
        by)
    ∙ rw (with_status-at id suspended t (found-held id ts t e).1) refl
