-- ===== src/Federation/Apart.antt =====
-- src/modules/auth/sso.service.ts: the links of the tenants' subjects, and whom provisioning returns.
use backend_foundation.Prelude.{
  ℕ, ==_iff, ==_refl, ◌≡◌, ◌≢◌, refl, sym, ap, subst, ◌∙◌, false, String, none, some, ◌∷◌, Memᴰ,
  find_sound, arith, Bool-cases, Option-cases, inl, inr,
}
use backend_foundation.Auth.Data.{User, Env}
use backend_foundation.Auth.Monad.{ok}
use backend_foundation.Auth.Users
use backend_foundation.Federation.{
  Federation, SsoConnection, SsoIdentity, find_connection, find_identity, create_identity,
}
use backend_foundation.Federation.Oauth.{vouched_user, user_by_email}
use backend_foundation.Federation.Sso.{
  in_other_tenant, tenant_of, new_identity, identified_user, find_or_provision_user,
}
use backend_foundation.Federation.SsoLaws.{SsoOwner, known_identity, known_email, new_account}

abbrev link_to : ℕ → ℕ → User → SsoIdentity
link_to tenant_id subject u = record { tenant_id = tenant_id; subject = subject; user_id = u.id }

module _ {R S : Type 0} where
  -- Every linked subject stands for users of its own tenant, or of none.
  abbrev pub LinksWithinTenants : Federation R S → Type 0
  LinksWithinTenants s =
      (i : SsoIdentity) (u : User)
      → Memᴰ i s.sso_identities
      → Memᴰ u s.database.users
      → u.id ≡ i.user_id
      → in_other_tenant i.tenant_id u.tenant_id ≡ false

  -- Whoever a tenant's identity provider is taken to vouch for is in no other tenant.
  pub owner-within :
      (env : Env) (tenant_id subject : ℕ) (email name : String) (s : Federation R S) (u : User)
      → LinksWithinTenants s
      → env.tenant_id ≡ some tenant_id
      → SsoOwner env tenant_id subject email name s u
      → in_other_tenant tenant_id u.tenant_id ≡ false
  unfolding find_identity Users.find_by_id vouched_user
  owner-within env tenant_id subject email name s u within here (known_identity i e f) =
      let (m, hit) = find_sound _ s.sso_identities e in
      let (n, found) = find_sound _ s.database.users f in
      let same : i.tenant_id ≡ tenant_id = (==_iff _ _).0 (ground (arith, hit)) in
      let id : u.id ≡ i.user_id = (==_iff _ _).0 (ground (arith, found)) in
      subst (λ t. in_other_tenant t u.tenant_id ≡ false) same (within i u m n id)
  owner-within env tenant_id subject email name s u within here (known_email e f g) = g
  owner-within env tenant_id subject email name s u within here (new_account e f made) =
      let own : u.tenant_id ≡ some tenant_id = ap (λ (x : User). x.tenant_id) made ∙ here in
      rw (own, ==_refl tenant_id) refl

  -- No two users have one id.
  abbrev pub UsersOnce : Federation R S → Type 0
  UsersOnce s =
      (u v : User) → Memᴰ u s.database.users → Memᴰ v s.database.users → u.id ≡ v.id → u ≡ v

  pub record TenantsApart (s : Federation R S) : Type 0 where
    pub within : LinksWithinTenants s
    pub once : UsersOnce s

  pub tables-TenantsApart :
      (s t : Federation R S)
      → t.sso_identities ≡ s.sso_identities
      → t.database.users ≡ s.database.users
      → TenantsApart s
      → TenantsApart t
  tables-TenantsApart s t links users apart = record {
    within = λ i u m n id. apart.within i u (subst (Memᴰ i) links m) (subst (Memᴰ u) users n) id;
    once = λ u v m n id. apart.once u v (subst (Memᴰ u) users m) (subst (Memᴰ v) users n) id;
  }

  pub connection-tenant :
      (tenant_id : ℕ) (s : Federation R S) {c : SsoConnection}
      → find_connection tenant_id s ≡ some c
      → c.tenant_id ≡ tenant_id
  unfolding find_connection
  connection-tenant tenant_id s e = (==_iff _ _).0 (find_sound _ s.sso_connections e).1

  -- Nobody has the id that the call draws.
  pub record Unused (id : ℕ) (s : Federation R S) : Type 0 where
    pub by_user : (u : User) → Memᴰ u s.database.users → u.id ≢ id
    pub by_link : (i : SsoIdentity) → Memᴰ i s.sso_identities → i.user_id ≢ id

  linked-within :
      (tenant_id subject : ℕ) (s : Federation R S) (v : User)
      → LinksWithinTenants s
      → UsersOnce s
      → Memᴰ v s.database.users
      → in_other_tenant tenant_id v.tenant_id ≡ false
      → LinksWithinTenants
          (record s { sso_identities = link_to tenant_id subject v ∷ s.sso_identities })
  linked-within tenant_id subject s v within once there own i u (Memᴰ.head e) n id =
      let same : u ≡ v = once u v n there (id ∙ ap (λ (x : SsoIdentity). x.user_id) e) in
      rw (e, same) own
  linked-within tenant_id subject s v within once there own i u (Memᴰ.tail m) n id =
      within i u m n id

  added-once :
      (s : Federation R S) (v : User)
      → UsersOnce s
      → ((u : User) → Memᴰ u s.database.users → u.id ≢ v.id)
      → UsersOnce (record s { database = record s.database { users = v ∷ s.database.users } })
  added-once s v once free u w (Memᴰ.head e) (Memᴰ.head f) id = e ∙ sym f
  added-once s v once free u w (Memᴰ.head e) (Memᴰ.tail n) id =
      absurd (free w n (sym id ∙ ap (λ (x : User). x.id) e))
  added-once s v once free u w (Memᴰ.tail m) (Memᴰ.head f) id =
      absurd (free u m (id ∙ ap (λ (x : User). x.id) f))
  added-once s v once free u w (Memᴰ.tail m) (Memᴰ.tail n) id = once u w m n id

  added-within :
      (env : Env) (tenant_id subject : ℕ) (s : Federation R S) (v : User)
      → LinksWithinTenants s
      → Unused v.id s
      → in_other_tenant tenant_id v.tenant_id ≡ false
      → LinksWithinTenants (record s {
        database = record s.database { users = v ∷ s.database.users };
        sso_identities = link_to tenant_id subject v ∷ s.sso_identities;
      })
  added-within env tenant_id subject s v within free own i u (Memᴰ.head e) (Memᴰ.head f) id =
      rw (e, f) own
  added-within env tenant_id subject s v within free own i u (Memᴰ.head e) (Memᴰ.tail n) id =
      absurd (free.by_user u n (id ∙ ap (λ (x : SsoIdentity). x.user_id) e))
  added-within env tenant_id subject s v within free own i u (Memᴰ.tail m) (Memᴰ.head f) id =
      absurd (free.by_link i m (sym id ∙ ap (λ (x : User). x.id) f))
  added-within env tenant_id subject s v within free own i u (Memᴰ.tail m) (Memᴰ.tail n) id =
      within i u m n id

  module _ (env : Env) (tenant_id subject : ℕ) (email name : String) (s : Federation R S)
      (apart : TenantsApart s) (free : Unused env.fresh_id s)
      (here : env.tenant_id ≡ some tenant_id) where
    new_identity-TenantsApart :
        find_identity tenant_id subject s ≡ none
        → in_other_tenant tenant_id (tenant_of (Users.find_by_email email s.database)) ≡ false
        → TenantsApart
            (new_identity env tenant_id subject email name
              (Users.find_by_email email s.database)
              s).1
    unfolding new_identity user_by_email create_identity find_identity Users.create
        Users.find_by_email vouched_user
    new_identity-TenantsApart e own = elim (Option-cases (Users.find_by_email email s.database)) [
      | inr (v, f) ↦
          let (there, hit) = find_sound _ s.database.users f in
          rw (f, e)
            (record {
              within =
                  linked-within tenant_id subject s v apart.within apart.once there (rw f at own);
              once = apart.once;
            })
      | inl f ↦ elim (Bool-cases (Users.has_email email s.database)) [
        | inl taken ↦ rw (f, taken) apart
        | inr new ↦
            rw (f, new, e)
              (record {
                within =
                    added-within env tenant_id subject s (vouched_user env email name) apart.within
                      free (rw (here, ==_refl tenant_id) refl);
                once = added-once s (vouched_user env email name) apart.once free.by_user;
              })
      ]
    ]

    new_identity-there :
        {u : User}
        → find_identity tenant_id subject s ≡ none
        → (new_identity env tenant_id subject email name (Users.find_by_email email s.database) s).0
          ≡ ok u
        → Memᴰ u
            (new_identity env tenant_id subject email name
              (Users.find_by_email email s.database)
              s).1.database.users
    unfolding new_identity user_by_email create_identity find_identity Users.create
        Users.find_by_email vouched_user
    new_identity-there {u} e h = elim (Option-cases (Users.find_by_email email s.database)) [
      | inr (v, f) ↦
          let same : ok v ≡ ok u = rw (f, e) at h in
          let is : v ≡ u = cc same in
          rw (f, e) (subst (λ x. Memᴰ x s.database.users) is (find_sound _ s.database.users f).0)
      | inl f ↦ elim (Bool-cases (Users.has_email email s.database)) [
        | inl taken ↦ absurd (cc (rw (f, taken) at h))
        | inr new ↦
            let same : ok (vouched_user env email name) ≡ ok u = rw (f, new, e) at h in
            let is : vouched_user env email name ≡ u = cc same in
            rw (f, new, e) (Memᴰ.head (sym is))
      ]
    ]

    -- The user that provisioning returns has a row afterwards.
    pub provision-there :
        {u : User}
        → (find_or_provision_user env tenant_id subject email name s).0 ≡ ok u
        → Memᴰ u (find_or_provision_user env tenant_id subject email name s).1.database.users
    unfolding find_or_provision_user identified_user Users.find_by_id
    provision-there {u} h = elim (Option-cases (find_identity tenant_id subject s)) [
      | inr (i, e) ↦ elim (Option-cases (Users.find_by_id i.user_id s.database)) [
        | inl f ↦ absurd (cc (rw (e, f) at h))
        | inr (v, f) ↦
            let same : ok v ≡ ok u = rw (e, f) at h in
            let is : v ≡ u = cc same in
            rw (e, f) (subst (λ x. Memᴰ x s.database.users) is (find_sound _ s.database.users f).0)
      ]
      | inl e ↦
          elim (Bool-cases
            (in_other_tenant tenant_id (tenant_of (Users.find_by_email email s.database)))) [
              | inl g ↦ absurd (cc (rw (e, g) at h))
              | inr g ↦ rw (e, g) (new_identity-there e (rw (e, g) at h))
            ]
    ]

    -- Provisioning keeps the tenants apart, whether it succeeds or not.
    pub provision-TenantsApart :
        TenantsApart (find_or_provision_user env tenant_id subject email name s).1
    unfolding find_or_provision_user identified_user
    provision-TenantsApart = elim (Option-cases (find_identity tenant_id subject s)) [
      | inr (i, e) ↦ elim (Option-cases (Users.find_by_id i.user_id s.database)) [
        | inl f ↦ rw (e, f) apart
        | inr (v, f) ↦ rw (e, f) apart
      ]
      | inl e ↦
          elim (Bool-cases
            (in_other_tenant tenant_id (tenant_of (Users.find_by_email email s.database)))) [
              | inl g ↦ rw (e, g) apart
              | inr g ↦ rw (e, g) (new_identity-TenantsApart e g)
            ]
    ]
