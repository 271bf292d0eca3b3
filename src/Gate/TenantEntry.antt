-- ===== src/Gate/TenantEntry.antt =====
-- For which tenants a request may enter.
use backend_foundation.Prelude.{
  ℕ, ◌==◌, ◌≡◌, refl, sym, ap, ◌∙◌, ◌⊎◌, inl, inr, false, String, Option, none, some, arith,
  find_sound, Bool-cases, subst, ◌&&◌,
}
use backend_foundation.Auth.Data.{Role, user, organizer, admin, User, Database}
use backend_foundation.Auth.Monad.{ok}
use backend_foundation.Auth.Users
use backend_foundation.Auth.Users.{is_live}
use backend_foundation.Auth.Repository.{is_blacklisted}
use backend_foundation.Gate.Tenants.{assert_tenant_binding}
use backend_foundation.Gate.Keys.{ApiKey}
use backend_foundation.Gate.Request.{
  access_payload, challenge_payload, Verified, verified, expired, invalid, Credentials, no_bearer,
  api_key, jwt, Surroundings, GateState, Identity, token_jti, identify, own_tenant, accept_payload,
  bind_tenant, bind_owner, authenticate_with_api_key, auth_middleware, verify_token,
}
use backend_foundation.Gate.Entry.{
  KeyShown, identify-ok, key-ok, owner-ok, authenticate-ok, api_key-KeyShown,
}

-- The tenant is that of the user's row, or that of the valid key that the request shows; for a user
-- without a tenant, the role admin lets him ask for any. With a token this is the role in the
-- verified payload, which is not read again from the table; with a key it is that of its owner's row.
pub data MayAct {R : Type 0} (out : Surroundings R) (now : ℕ) (c : Credentials) (s : GateState R)
    (i : Identity) (t : ℕ) : Type 0 where
  own :
      (u : User)
      → Users.find_by_id i.id s.db ≡ some u
      → u.tenant_id ≡ some t
      → MayAct out now c s i t
  admin_token :
      (token : ℕ) (email : String) (jti exp : ℕ) (u : User)
      → c ≡ jwt token
      → verify_token out now token ≡ verified (access_payload i.id email admin jti exp)
      → Users.find_by_id i.id s.db ≡ some u
      → u.tenant_id ≡ none
      → MayAct out now c s i t
  admin_key :
      (raw : ℕ) (u : User)
      → c ≡ api_key raw
      → KeyShown out now raw s i
      → Users.find_by_id i.id s.db ≡ some u
      → u.tenant_id ≡ none
      → u.role ≡ admin
      → MayAct out now c s i t
  by_key :
      (raw : ℕ)
      → c ≡ api_key raw
      → (shown : KeyShown out now raw s i) → shown.key.user_id ≡ i.id
      → shown.key.tenant_id ≡ some t
      → MayAct out now c s i t

binding-cases :
    (t : ℕ) (bound : Option ℕ) (role : Role)
    → assert_tenant_binding (some t) bound role ≡ ok tt
    → (bound ≡ some t) ⊎ ((bound ≡ none) × (role ≡ admin))
unfolding assert_tenant_binding
binding-cases t none user h = cc
binding-cases t none organizer h = cc
binding-cases t none admin h = inr (refl, refl)
binding-cases t (some b) role h = inl (ground arith)

own_tenant-some :
    {R : Type 0} (out : Surroundings R) (k u : Option ℕ) {t : ℕ}
    → own_tenant out k u ≡ some t
    → (k ≡ some t) ⊎ (u ≡ some t)
own_tenant-some out none u e = inr e
own_tenant-some out (some t) u e = inl e

own_tenant-none :
    {R : Type 0} (out : Surroundings R) (k u : Option ℕ) → own_tenant out k u ≡ none → u ≡ none
own_tenant-none out none u e = e
own_tenant-none out (some t) u e = cc

found_user-id : (db : Database) {u : User} (n : ℕ) → Users.find_by_id n db ≡ some u → u.id ≡ n
unfolding Users.find_by_id
found_user-id db n e = ground (arith, (find_sound (λ x. x.id == n && is_live x) db.users e).1)

abbrev pub token_identity : ℕ → String → Role → ℕ → ℕ → Identity
token_identity id email role jti exp = record {
  id = id;
  email = email;
  role = role;
  jti = token_jti jti;
  exp = some exp;
  api_key_scopes = none;
}

pub token-accepted :
    {R : Type 0} (out : Surroundings R) (requested : Option ℕ) (db : Database) (i : Identity)
    (id : ℕ) (email : String) (role : Role) (jti exp : ℕ)
    → accept_payload out requested db (verified (access_payload id email role jti exp)) ≡ ok i
    → (is_blacklisted jti db ≡ false)
      × (identify out (token_identity id email role jti exp) (bind_tenant out requested id role db)
          ≡ ok i)
token-accepted out requested db i id email role jti exp h =
    elim (Bool-cases (is_blacklisted jti db)) [
      | inl e ↦ absurd (cc (rw e at h))
      | inr e ↦ (e, rw e at h)
    ]

module _ {R : Type 0} (out : Surroundings R) (now t : ℕ) (s : GateState R) (i : Identity) where
  owner-MayAct :
      (token : ℕ) (email : String) (role : Role) (jti exp : ℕ) (o : Option User)
      → verify_token out now token ≡ verified (access_payload i.id email role jti exp)
      → Users.find_by_id i.id s.db ≡ o
      → bind_owner out (some t) role o ≡ ok tt
      → MayAct out now (jwt token) s i t
  owner-MayAct token email role jti exp none v e h = cc
  owner-MayAct token email role jti exp (some u) v e h = elim (binding-cases t u.tenant_id role h) [
    | inl bound ↦ own u e bound
    | inr (free, is_admin) ↦
        admin_token token email jti exp u refl
          (v ∙ ap (λ r. verified (access_payload i.id email r jti exp)) is_admin) e free
  ]

  payload-MayAct :
      (token : ℕ) (v : Verified)
      → verify_token out now token ≡ v
      → accept_payload out (some t) s.db v ≡ ok i
      → MayAct out now (jwt token) s i t
  payload-MayAct token expired e h = cc
  payload-MayAct token invalid e h = cc
  payload-MayAct token (verified (challenge_payload user_id)) e h = cc
  payload-MayAct token (verified (access_payload id email role jti exp)) e h =
      let (bound, same) =
        identify-ok out now (some t) i _ _
          (token-accepted out (some t) s.db i id email role jti exp h).1 in
      let id' : id ≡ i.id = ap (λ (x : Identity). x.id) same in
      owner-MayAct token email role jti exp (Users.find_by_id i.id s.db)
        (e ∙ ap (λ n. verified (access_payload n email role jti exp)) id') refl
        (subst (λ n. bind_owner out (some t) role (Users.find_by_id n s.db) ≡ ok tt) id' bound)

  key-MayAct :
      (raw : ℕ)
      → (authenticate_with_api_key out now (some t) raw s).0 ≡ ok i
      → MayAct out now (api_key raw) s i t
  unfolding authenticate_with_api_key
  key-MayAct raw h =
      let shown = api_key-KeyShown out now (some t) raw s i h in
      let (k, valid, live, accepted) = key-ok out now (some t) i s _ h in
      let (u, found, id, role, scopes, bound) = owner-ok out now (some t) i k _ accepted in
      let stored = (authenticate-ok out.hash_key now raw s.keys k valid).0 in
      let same_key : k ≡ shown.key = cc (stored, shown.found) in
      let same_user : k.user_id ≡ i.id = sym (found_user-id s.db k.user_id found) ∙ sym id in
      let found_owner : Users.find_by_id i.id s.db ≡ some u =
        subst (λ n. Users.find_by_id n s.db ≡ some u) same_user found in
      elim (binding-cases t (own_tenant out k.tenant_id u.tenant_id) u.role bound) [
        | inl of_one ↦ elim (own_tenant-some out k.tenant_id u.tenant_id of_one) [
          | inl of_key ↦
              by_key raw refl shown (subst (λ (x : ApiKey). x.user_id ≡ i.id) same_key same_user)
                (subst (λ (x : ApiKey). x.tenant_id ≡ some t) same_key of_key)
          | inr of_user ↦ own u found_owner of_user
        ]
        | inr (free, is_admin) ↦
            admin_key raw u refl shown found_owner
              (own_tenant-none out k.tenant_id u.tenant_id free) is_admin
      ]

-- A request that `authMiddleware` lets through for a tenant may act for it: the user's row, as stored
-- now, belongs to the tenant; or the request shows a key of this user and of this tenant that is
-- stored, neither revoked nor expired and not of a suspended tenant, as far as Redis or the table
-- say; or the user's row has no tenant, and he is an admin: by the role in the payload of his
-- verified token, or, with such a key, by the role of his row.
pub tenant_bound :
    {R : Type 0} (out : Surroundings R) (now t : ℕ) (c : Credentials) (s : GateState R)
    (i : Identity)
    → (auth_middleware out now (some t) c s).0 ≡ ok i
    → MayAct out now c s i t
unfolding auth_middleware
tenant_bound out now t no_bearer s i h = cc
tenant_bound out now t (api_key raw) s i h = key-MayAct out now t s i raw h
tenant_bound out now t (jwt token) s i h = payload-MayAct out now t s i token _ refl h
