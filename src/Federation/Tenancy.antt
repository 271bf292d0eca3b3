-- ===== src/Federation/Tenancy.antt =====
-- src/modules/auth/sso.service.ts: the users that a tenant's identity provider may log in.
use backend_foundation.Prelude.{
  ℕ, ◌≡◌, refl, sym, subst, false, String, Option, some, Memᴰ, or_else,
}
use backend_foundation.Auth.Data.{Env, Crypto}
use backend_foundation.Auth.Monad.{ok}
use backend_foundation.Federation.{Federation}
use backend_foundation.Federation.Sso.{
  SsoRedis, Oidc, StateData, CallbackQuery, in_other_tenant, handle_callback,
}
use backend_foundation.Federation.Admission.{inside}
use backend_foundation.Federation.SsoLogin.{SsoProof, sso_needs_proof}
use backend_foundation.Federation.Apart.{
  owner-within, TenantsApart, tables-TenantsApart, connection-tenant, Unused, provision-there,
  provision-TenantsApart,
}

module _ {R S : Type 0} (api : SsoRedis R S) (base_url : Option String) (oidc : Oidc)
    (crypto : Crypto) (env : Env) (code : ℕ) (slug : String) where
  -- What the callback has checked, and whom it has logged in: `proof.admitted` names the user whom
  -- the claims of the tenant's provider are taken for by the tables, and his tokens, which are kept
  -- under the code. His row is in the table, and he is in no tenant but that of the path.
  pub record LoggedIn (query : CallbackQuery) (s after : Federation R S) : Type 0 where
    pub given : String
    pub kept : StateData
    pub proof :
        SsoProof api base_url oidc crypto env code slug given query.state kept
          (record s { states = (api.states.get_del env.now query.state s.states).1 })
          after
    pub there : Memᴰ proof.admitted.owner after.database.users
    pub own : in_other_tenant proof.tenant.id proof.admitted.owner.tenant_id ≡ false

  -- Let every link of a subject of a tenant's identity provider stand for a user of that tenant or
  -- of none, and no two users have one id. Then a callback that ends in an exchange code keeps under
  -- it the tokens of a user of the tenant of its path or of none, never of another tenant's,
  -- whatever email the identity provider named: the user that the subject is linked to, else the
  -- one with that email, else a new one, whose row is in the table afterwards. Both facts hold
  -- afterwards too. The id that the call draws is that of no user and of no link.
  pub sso_within_tenant :
      (query : CallbackQuery) (s : Federation R S) {n : ℕ}
      → TenantsApart s
      → Unused env.fresh_id s
      → (handle_callback (some api) base_url oidc crypto env code slug query s).0 ≡ ok n
      → let after = (handle_callback (some api) base_url oidc crypto env code slug query s).1 in
        TenantsApart after × LoggedIn query s after
  sso_within_tenant query s apart free h =
      let (same, (given, kept, no_error, has_code, held, proof)) =
        sso_needs_proof api base_url oidc crypto env code slug query s h in
      let c = proof.connection in
      let a = proof.admitted in
      let t = (handle_callback (some api) base_url oidc crypto env code slug query s).1 in
      let start : Federation R S = record s {
        states = (api.states.get_del env.now query.state s.states).1;
      } in
      let of_tenant : c.tenant_id ≡ proof.tenant.id =
        connection-tenant proof.tenant.id start proof.connection_found in
      let middle : TenantsApart a.provisioned = subst TenantsApart (sym a.provisioned_by) (
        provision-TenantsApart (inside env c.tenant_id) c.tenant_id proof.claims.sub proof.email
          (or_else proof.claims.name proof.email) start
          (record { within = apart.within; once = apart.once })
          (record { by_user = free.by_user; by_link = free.by_link }) refl) in
      (
        tables-TenantsApart a.provisioned t a.same_links a.same_users middle,
        record {
          given = given;
          kept = kept;
          proof = proof;
          there = subst (Memᴰ a.owner) (sym a.same_users) (
              subst (λ (p : Federation R S). Memᴰ a.owner p.database.users) (sym a.provisioned_by)
                (provision-there (inside env c.tenant_id) c.tenant_id proof.claims.sub proof.email
                  (or_else proof.claims.name proof.email) start
                  (record { within = apart.within; once = apart.once })
                  (record { by_user = free.by_user; by_link = free.by_link }) refl
                  a.found_or_made));
          own =
              subst (λ i. in_other_tenant i a.owner.tenant_id ≡ false) of_tenant
                (owner-within (inside env c.tenant_id) c.tenant_id proof.claims.sub proof.email
                  (or_else proof.claims.name proof.email) start a.owner apart.within refl a.proved);
        },
      )
