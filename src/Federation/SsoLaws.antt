-- ===== src/Federation/SsoLaws.antt =====
-- src/modules/auth/sso.service.ts: what a login through the identity provider of a tenant rests on.
use backend_foundation.Prelude.{
  ℕ, ◌≡◌, refl, sym, ap, ◌∙◌, ◌⊎◌, inl, inr, true, false, String, Option, none, some, Option-cases,
  Bool-cases, arith,
}
use backend_foundation.Auth.Data.{User, Env}
use backend_foundation.Auth.Monad.{Result, ok, err, continue, M, pure}
use backend_foundation.Auth.Users
use backend_foundation.Gate.Tenants.{Tenant, find_tenant_by_slug}
use backend_foundation.Federation.{
  Federation, SsoConnection, SsoIdentity, find_connection, find_identity, create_identity,
  on_database,
}
use backend_foundation.Federation.Oauth.{vouched_user, user_by_email}
use backend_foundation.Federation.Sso.{
  in_other_tenant, tenant_of, find_tenant_or_throw, assert_enabled, get_active_connection_or_throw,
  identified_user, new_identity, find_or_provision_user,
}

pub cont-ok {ℓ κ} :
    {X : Type 0} {A : Type ℓ} {B : Type κ} (f : A → M X B) (r : Result A × X) {b : B}
    → (continue f r.0 r.1).0 ≡ ok b
    → (a : A) × (r.0 ≡ ok a) × (continue f r.0 r.1 ≡ f a r.1)
cont-ok f (ok a, s) h = (a, refl, refl)
cont-ok f (err e, s) h = absurd (cc h)

module _ {R S : Type 0} where
  -- The user that a subject of a tenant is taken for.
  pub data SsoOwner (env : Env) (tenant_id subject : ℕ) (email name : String) (s : Federation R S)
      (u : User) : Type 0 where
    known_identity :
        (i : SsoIdentity)
        → find_identity tenant_id subject s ≡ some i
        → Users.find_by_id i.user_id s.database ≡ some u
        → SsoOwner env tenant_id subject email name s u
    known_email :
        find_identity tenant_id subject s ≡ none
        → Users.find_by_email email s.database ≡ some u
        → in_other_tenant tenant_id u.tenant_id ≡ false
        → SsoOwner env tenant_id subject email name s u
    new_account :
        find_identity tenant_id subject s ≡ none
        → Users.find_by_email email s.database ≡ none
        → u ≡ vouched_user env email name
        → SsoOwner env tenant_id subject email name s u

  assert_enabled-ok :
      (o : Option SsoConnection) (s : Federation R S) {c : SsoConnection}
      → (assert_enabled o s).0 ≡ ok c
      → (o ≡ some c) × (c.enabled ≡ true) × ((assert_enabled o s).1 ≡ s)
  unfolding assert_enabled
  assert_enabled-ok none s h = absurd (cc h)
  assert_enabled-ok (some d) s h = (ground arith, ground arith, ground arith)

  pub active-ok :
      (slug : String) (s : Federation R S) {c : SsoConnection}
      → (get_active_connection_or_throw slug s).0 ≡ ok c
      → (t : Tenant) × (find_tenant_by_slug slug s.tenants ≡ some t)
        × (find_connection t.id s ≡ some c)
        × (c.enabled ≡ true)
        × ((get_active_connection_or_throw slug s).1 ≡ s)
  unfolding get_active_connection_or_throw find_tenant_or_throw
  active-ok slug s {c} h = elim (Option-cases (find_tenant_by_slug slug s.tenants)) [
    | inl e ↦ absurd (cc (rw e at h))
    | inr (t, e) ↦
        let (found, enabled, same) = assert_enabled-ok (find_connection t.id s) s (rw e at h) in
        (t, e, found, enabled, rw e same)
  ]

  pub pure-ok :
      (v : User) (r : Result (Unit {0}) × Federation R S) {u : User}
      → (continue (λ done. pure v) r.0 r.1).0 ≡ ok u
      → v ≡ u
  pure-ok v (ok done, t) h = cc h
  pure-ok v (err e, t) h = absurd (cc h)

  new_identity-ok :
      (env : Env) (tenant_id subject : ℕ) (email name : String) (known : Option User)
      (s : Federation R S) {u : User}
      → (new_identity env tenant_id subject email name known s).0 ≡ ok u
      → (known ≡ some u) ⊎ ((known ≡ none) × (u ≡ vouched_user env email name))
  unfolding new_identity user_by_email
  new_identity-ok env tenant_id subject email name (some v) s h = inl (
      ap (λ x. some x)
        (pure-ok v
          (create_identity (record { tenant_id = tenant_id; subject = subject; user_id = v.id }) s)
          h))
  new_identity-ok env tenant_id subject email name none s {u} h =
      let (v, m, rest) = cont-ok _ (user_by_email env email name none s) h in
      let made =
        pure-ok (vouched_user env email name)
          (on_database (Users.create (vouched_user env email name)) s) m in
      let row : SsoIdentity = record { tenant_id = tenant_id; subject = subject; user_id = v.id } in
      let last =
        pure-ok v (create_identity row (user_by_email env email name none s).1)
          (ap (λ (r : Result User × Federation R S). r.0) (sym rest) ∙ h) in
      inr (refl, sym last ∙ sym made)

  owner-new :
      (env : Env) (tenant_id subject : ℕ) (email name : String) (s : Federation R S) {u : User}
      → find_identity tenant_id subject s ≡ none
      → (identified_user none env tenant_id subject email name s).0 ≡ ok u
      → SsoOwner env tenant_id subject email name s u
  unfolding identified_user
  owner-new env tenant_id subject email name s {u} e h =
      let known = Users.find_by_email email s.database in
      elim (Bool-cases (in_other_tenant tenant_id (tenant_of known))) [
        | inl g ↦ absurd (cc (rw g at h))
        | inr g ↦ elim (new_identity-ok env tenant_id subject email name known s (rw g at h)) [
          | inl f ↦ known_email e f (rw f at g)
          | inr (f, made) ↦ new_account e f made
        ]
      ]

  pub owner-ok :
      (env : Env) (tenant_id subject : ℕ) (email name : String) (s : Federation R S) {u : User}
      → (find_or_provision_user env tenant_id subject email name s).0 ≡ ok u
      → SsoOwner env tenant_id subject email name s u
  unfolding find_or_provision_user identified_user
  owner-ok env tenant_id subject email name s {u} h =
      elim (Option-cases (find_identity tenant_id subject s)) [
        | inr (i, e) ↦ elim (Option-cases (Users.find_by_id i.user_id s.database)) [
          | inl f ↦ absurd (cc (rw (e, f) at h))
          | inr (v, f) ↦
              let same : ok v ≡ ok u = rw (e, f) at h in
              known_identity i e (f ∙ ap (λ x. some x) (cc same))
        ]
        | inl e ↦ owner-new env tenant_id subject email name s e (rw e at h)
      ]
