-- ===== src/Federation/Admission.antt =====
-- src/modules/auth/sso.service.ts: whom the claims of an identity provider are taken for, and the
-- tokens kept under the exchange code.
use backend_foundation.Prelude.{
  ℕ, ◌≡◌, refl, sym, ap, ◌∙◌, inl, inr, String, none, some, or_else, Option-cases,
}
use backend_foundation.Auth.Data.{User, Env, Crypto, Database}
use backend_foundation.Auth.Monad.{Result, ok, continue, pure}
use backend_foundation.Auth.Refresh.{TokenPair, issue_tokens_for_user}
use backend_foundation.Federation.{Federation, SsoConnection, on_database}
use backend_foundation.Federation.Sso.{
  SsoRedis, OidcClient, IdClaims, set_exchange, keep_exchange_codes, exchange_code_ttl_seconds,
  find_or_provision_user, admit_claims,
}
use backend_foundation.Federation.Moves.{issue-users}
use backend_foundation.Federation.SsoLaws.{cont-ok, SsoOwner, owner-ok}

-- `runWithTenantContext`: the request, in the context of a tenant.
abbrev pub inside : Env → ℕ → Env
inside env tenant_id = record env { tenant_id = some tenant_id }

-- The client for a connection.
abbrev pub client_of : Crypto → SsoConnection → String × String → OidcClient
client_of crypto c uri = record {
  issuer_url = c.issuer_url;
  client_id = c.client_id;
  client_secret = crypto.decrypt c.client_secret_encrypted;
  redirect_uri = uri;
}

module _ {R S : Type 0} (crypto : Crypto) (api : SsoRedis R S) (env : Env) (code : ℕ) where
  -- The user of the claims, and the tokens for it that are kept under the exchange code.
  pub record Admitted (c : SsoConnection) (claims : IdClaims) (email : String)
      (s after : Federation R S) : Type 0 where
    pub owner : User
    pub proved :
        SsoOwner
          (inside env c.tenant_id)
          c.tenant_id
          claims.sub
          email
          (or_else claims.name email)
          s
          owner
    pub provisioned : Federation R S
    pub pair : TokenPair
    pub issued :
        (issue_tokens_for_user crypto (inside env c.tenant_id) owner none provisioned.database).0
        ≡ ok pair
    pub stored :
        api.exchange_codes.set env.now exchange_code_ttl_seconds code pair
          provisioned.exchange_codes
        ≡ some after.exchange_codes
    pub found_or_made :
        (find_or_provision_user
          (inside env c.tenant_id)
          c.tenant_id
          claims.sub
          email
          (or_else claims.name email)
          s).0
        ≡ ok owner
    pub provisioned_by :
        provisioned
        ≡ (find_or_provision_user
            (inside env c.tenant_id)
            c.tenant_id
            claims.sub
            email
            (or_else claims.name email)
            s).1
    pub same_links : after.sso_identities ≡ provisioned.sso_identities
    pub same_users : after.database.users ≡ provisioned.database.users

  set_exchange-ok :
      (pair : TokenPair) (s : Federation R S) {n : ℕ}
      → (continue
          (λ (done : Unit {0}). pure code)
          (set_exchange api env.now code pair s).0
          (set_exchange api env.now code pair s).1).0
        ≡ ok n
      → (n ≡ code)
        × (api.exchange_codes.set env.now exchange_code_ttl_seconds code pair s.exchange_codes
            ≡ some
                (continue
                  (λ (done : Unit {0}). pure code)
                  (set_exchange api env.now code pair s).0
                  (set_exchange api env.now code pair s).1).1.exchange_codes)
  unfolding set_exchange keep_exchange_codes
  set_exchange-ok pair s h =
      elim (Option-cases
        (api.exchange_codes.set env.now exchange_code_ttl_seconds code pair s.exchange_codes)) [
          | inl e ↦ absurd (cc (rw e at h))
          | inr (r, e) ↦ (cc (rw e at h), rw e refl)
        ]

  -- A code that is stored touches no table.
  set_exchange-tables :
      (pair : TokenPair) (s : Federation R S)
      → let after =
          (continue
            (λ (done : Unit {0}). pure code)
            (set_exchange api env.now code pair s).0
            (set_exchange api env.now code pair s).1).1 in
        (after.sso_identities ≡ s.sso_identities) × (after.database ≡ s.database)
  unfolding set_exchange keep_exchange_codes
  set_exchange-tables pair s =
      elim (Option-cases
        (api.exchange_codes.set env.now exchange_code_ttl_seconds code pair s.exchange_codes)) [
          | inl e ↦ rw e (refl, refl)
          | inr (r, e) ↦ rw e (refl, refl)
        ]

  pub admit_claims-ok :
      (c : SsoConnection) (claims : IdClaims) (email : String) (s : Federation R S) {n : ℕ}
      → (admit_claims crypto api env code c claims email s).0 ≡ ok n
      → (n ≡ code) × Admitted c claims email s (admit_claims crypto api env code c claims email s).1
  unfolding admit_claims
  admit_claims-ok c claims email s {n} h =
      let e = inside env c.tenant_id in
      let name = or_else claims.name email in
      let r = find_or_provision_user e c.tenant_id claims.sub email name s in
      let (u, m, rest) = cont-ok _ r h in
      let r2 : Result TokenPair × Federation R S =
        on_database (issue_tokens_for_user crypto e u none) r.1 in
      let (pair, p, rest') =
        cont-ok _ r2 (ap (λ (x : Result ℕ × Federation R S). x.0) (sym rest) ∙ h) in
      let end = rest ∙ rest' in
      let (same, stored) =
        set_exchange-ok pair r2.1 (ap (λ (x : Result ℕ × Federation R S). x.0) (sym end) ∙ h) in
      let (links, tables) = set_exchange-tables pair r2.1 in
      (
        same,
        record {
          owner = u;
          proved = owner-ok e c.tenant_id claims.sub email name s m;
          provisioned = r.1;
          pair = pair;
          issued = p;
          stored =
              stored ∙ ap (λ (x : Result ℕ × Federation R S). some x.1.exchange_codes) (sym end);
          found_or_made = m;
          provisioned_by = refl;
          same_links = ap (λ (x : Result ℕ × Federation R S). x.1.sso_identities) end ∙ links;
          same_users =
              ap (λ (x : Result ℕ × Federation R S). x.1.database.users) end
              ∙ ap (λ (db : Database). db.users) tables
              ∙ issue-users crypto e u r.1.database;
        },
      )
