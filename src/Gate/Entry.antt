-- ===== src/Gate/Entry.antt =====
-- What a request that enters with an API key has shown.
use backend_foundation.Prelude.{
  ℕ, ◌≡◌, refl, sym, ◌∙◌, ap, inl, inr, true, false, Bool, Option, none, some, List, arith, is_some,
  Option-cases,
}
use backend_foundation.Auth.Data.{User}
use backend_foundation.Auth.Monad.{Result, ok, err}
use backend_foundation.Auth.Users
use backend_foundation.Auth.Users.{is_live}
use backend_foundation.Access.{Permission, includes, has_permission, next, require_permission}
use backend_foundation.Access.Laws.{scopes_narrow}
use backend_foundation.Gate.Tenants.{is_tenant_active_for_api_key, assert_tenant_binding}
use backend_foundation.Gate.ActiveTenant.{ActiveTenant, active-ActiveTenant}
use backend_foundation.Gate.Keys.{ApiKey, touched, authenticate, find_key_by_hash, check_key, past}
use backend_foundation.Gate.Request.{
  api_key, Surroundings, GateState, Identity, request_user, identify, accept_owner, own_tenant,
  after_quota, after_active, after_key, with_redis, authenticate_with_api_key, auth_middleware,
}

-- The key was found by its hash, is neither revoked nor expired, and is of no tenant or of one that
-- is active by Redis or by its row; its owner is there, and the request has the owner's role and the
-- key's scopes.
pub record KeyShown {R : Type 0} (out : Surroundings R) (now : ℕ) (raw : ℕ) (s : GateState R)
    (i : Identity) : Type 0 where
  pub key : ApiKey
  pub owner : User
  pub found : find_key_by_hash (out.hash_key raw) s.keys ≡ some key
  pub not_revoked : is_some key.revoked_at ≡ false
  pub not_expired : past now key.expires_at ≡ false
  pub of_active_tenant : ActiveTenant out.caches now s.tenants s.redis key.tenant_id
  pub owner_live : Users.find_by_id key.user_id s.db ≡ some owner
  pub id : i.id ≡ owner.id
  pub role : i.role ≡ owner.role
  pub scopes : i.api_key_scopes ≡ some key.scopes

module _ {R : Type 0} (out : Surroundings R) (now : ℕ) (requested : Option ℕ) (i : Identity) where
  pub identify-ok :
      (j : Identity) (r : Result (Unit {0})) → identify out j r ≡ ok i → (r ≡ ok tt) × (j ≡ i)
  identify-ok j (ok done) h = (refl, ground arith)
  identify-ok j (err e) h = cc

  pub owner-ok :
      (k : ApiKey) (o : Option User)
      → accept_owner out requested k o ≡ ok i
      → (u : User) × (o ≡ some u)
        × (i.id ≡ u.id)
        × (i.role ≡ u.role)
        × (i.api_key_scopes ≡ some k.scopes)
        × (assert_tenant_binding requested (own_tenant out k.tenant_id u.tenant_id) u.role ≡ ok tt)
  owner-ok k none h = cc
  owner-ok k (some u) h =
      let (bound, same) = identify-ok _ _ h in
      (
        u,
        refl,
        ap (λ (x : Identity). x.id) (sym same),
        ap (λ (x : Identity). x.role) (sym same),
        ap (λ (x : Identity). x.api_key_scopes) (sym same),
        bound,
      )

  quota-ok :
      (k : ApiKey) (s : GateState R) (p : Result (Unit {0}) × R)
      → (after_quota out requested k s p).0 ≡ ok i
      → accept_owner out requested k (Users.find_by_id k.user_id s.db) ≡ ok i
  quota-ok k s (ok done, r) h = h
  quota-ok k s (err e, r) h = cc

  active-ok :
      (k : ApiKey) (s : GateState R) (p : Bool × R)
      → (after_active out now requested k s p).0 ≡ ok i
      → (p.0 ≡ true) × (accept_owner out requested k (Users.find_by_id k.user_id s.db) ≡ ok i)
  active-ok k s (true, r) h = (refl, quota-ok k (with_redis out s r) _ h)
  active-ok k s (false, r) h = cc

  pub key-ok :
      (s : GateState R) (p : Result ApiKey × List ApiKey)
      → (after_key out now requested s p).0 ≡ ok i
      → (k : ApiKey) × (p.0 ≡ ok k)
        × ((is_tenant_active_for_api_key out.caches now s.tenants k.tenant_id s.redis).0 ≡ true)
        × (accept_owner out requested k (Users.find_by_id k.user_id s.db) ≡ ok i)
  key-ok s (ok k, ks) h =
      let (live, owner) = active-ok k (record s { keys = ks }) _ h in (k, refl, live, owner)
  key-ok s (err e, ks) h = cc

pub touched-answer : (now : ℕ) (r : Result ApiKey) (ks : List ApiKey) → (touched now r ks).0 ≡ r
touched-answer now (ok k) ks = refl
touched-answer now (err e) ks = refl

check_key-ok :
    (now : ℕ) (x k : ApiKey)
    → check_key now x ≡ ok k
    → (x ≡ k) × (is_some k.revoked_at ≡ false) × (past now k.expires_at ≡ false)
check_key-ok now x k h =
    let same : x ≡ k = ground arith in
    (
      same,
      ap (λ (y : ApiKey). is_some y.revoked_at) (sym same) ∙ ground arith,
      ap (λ (y : ApiKey). past now y.expires_at) (sym same) ∙ ground arith,
    )

pub authenticate-ok :
    (hash_key : ℕ → ℕ) (now raw : ℕ) (ks : List ApiKey) (k : ApiKey)
    → (authenticate hash_key now raw ks).0 ≡ ok k
    → (find_key_by_hash (hash_key raw) ks ≡ some k)
      × (is_some k.revoked_at ≡ false)
      × (past now k.expires_at ≡ false)
unfolding authenticate
authenticate-ok hash_key now raw ks k h = elim (Option-cases (find_key_by_hash (hash_key raw) ks)) [
  | inl e ↦ absurd (cc (rw e at h))
  | inr (x, e) ↦
      let checked =
        check_key-ok now x k (sym (touched-answer now (check_key now x) ks) ∙ rw e at h) in
      (e ∙ ap some checked.0, checked.1, checked.2)
]

module _ {R : Type 0} (out : Surroundings R) where
  pub api_key-KeyShown :
      (now : ℕ) (requested : Option ℕ) (raw : ℕ) (s : GateState R) (i : Identity)
      → (authenticate_with_api_key out now requested raw s).0 ≡ ok i
      → KeyShown out now raw s i
  unfolding authenticate_with_api_key
  api_key-KeyShown now requested raw s i h =
      let (k, valid, live, accepted) = key-ok out now requested i s _ h in
      let (u, found, id, role, scopes, bound) = owner-ok out now requested i k _ accepted in
      let (stored, unrevoked, unexpired) = authenticate-ok out.hash_key now raw s.keys k valid in
      record {
        key = k;
        owner = u;
        found = stored;
        not_revoked = unrevoked;
        not_expired = unexpired;
        of_active_tenant = active-ActiveTenant out.caches now s.tenants s.redis k.tenant_id live;
        owner_live = found;
        id = id;
        role = role;
        scopes = scopes;
      }

-- What the request has shown of the tenant, as the guard asks it.
pub accepted-key :
    {R : Type 0} (out : Surroundings R) (now : ℕ) (requested : Option ℕ) (raw : ℕ) (s : GateState R)
    (i : Identity)
    → (authenticate_with_api_key out now requested raw s).0 ≡ ok i
    → (k : ApiKey) × (find_key_by_hash (out.hash_key raw) s.keys ≡ some k)
      × ((is_tenant_active_for_api_key out.caches now s.tenants k.tenant_id s.redis).0 ≡ true)
unfolding authenticate_with_api_key
accepted-key out now requested raw s i h =
    let (k, valid, live, accepted) = key-ok out now requested i s _ h in
    (k, (authenticate-ok out.hash_key now raw s.keys k valid).0, live)

-- A request with an API key that gets through both `authMiddleware` and `requirePermission` has
-- shown a key that is stored, neither revoked nor expired, and of no tenant or of one that is active:
-- Redis holds the status ACTIVE for it, or its row in the table is not deleted and says ACTIVE. The
-- key's owner is not deleted and has the permission at this time by his role, and the key has it
-- among its scopes.
pub key_request_allowed :
    {R : Type 0} (out : Surroundings R) (now : ℕ) (requested : Option ℕ) (raw : ℕ) (s : GateState R)
    (i : Identity) (p : Permission)
    → (auth_middleware out now requested (api_key raw) s).0 ≡ ok i
    → require_permission p (some (request_user i)) ≡ next
    → (shown : KeyShown out now raw s i) × (has_permission shown.owner.role p ≡ true)
      × (includes shown.key.scopes p ≡ true)
unfolding auth_middleware
key_request_allowed out now requested raw s i p h allowed =
    let shown = api_key-KeyShown out now requested raw s i h in
    let (by_role, in_scope, alone) =
      scopes_narrow p (request_user i) shown.key.scopes shown.scopes allowed in
    (shown, ap (λ r. has_permission r p) (sym shown.role) ∙ by_role, in_scope)
