-- ===== src/Federation/SsoMoves.antt =====
-- src/modules/auth/sso.service.ts: every call as a chain of single changes of the tables and of the
-- one-time keys, and the histories of all calls.
use backend_foundation.Prelude.{
  ℕ, ◌≡◌, refl, String, Option, none, some, List, map, Option-cases, Bool-cases, inl, inr,
}
use backend_foundation.UserAgent.{codes, to_lower}
use backend_foundation.Auth.Data.{
  User, Env, Crypto, account_missing, tenant_not_found, remote_failed, sso_not_configured,
  sso_not_active, sso_other_tenant,
}
use backend_foundation.Auth.Users
use backend_foundation.Auth.Refresh.{TokenPair, non_empty}
use backend_foundation.Gate.Tenants.{find_tenant_by_slug}
use backend_foundation.Federation.{
  Federation, SsoConnection, SsoIdentity, find_connection, find_identity,
}
use backend_foundation.Federation.Sso.{
  StateData, Exec, rejected, no_result, get_failed, reply, SsoRedis, Oidc, SsoInput,
  in_other_tenant, tenant_of, find_tenant_or_throw, upsert_connection, upsert, assert_enabled,
  get_active_connection_or_throw, keep_states, keep_exchange_codes, set_state, set_exchange, taken,
  take_state, take_exchange, build_redirect_uri, build_oidc_client, identified_user, new_identity,
  find_or_provision_user, state_ttl_seconds, exchange_code_ttl_seconds,
}
use backend_foundation.Federation.Moves.{
  Closed, Respects, across-bind, across-gets, across-pure, across-throw, across-or_throw, across-if,
  across-user, across-create_identity,
}

module _ {R S : Type 0} (api : SsoRedis R S) where
  -- One change of the connections, or of a one-time key. `States` and `Codes` are the keys that
  -- may be set.
  pub data SsoMove (States Codes : ℕ → Type 0) (s t : Federation R S) : Type 0 where
    connections_changed :
        (cs : List SsoConnection) → t ≡ record s { sso_connections = cs } → SsoMove States Codes s t
    state_set :
        (now ttl key : ℕ) (v : StateData) (r : R)
        → States key
        → api.states.set now ttl key v s.states ≡ some r
        → t ≡ record s { states = r }
        → SsoMove States Codes s t
    state_taken :
        (now key : ℕ)
        → t ≡ record s { states = (api.states.get_del now key s.states).1 }
        → SsoMove States Codes s t
    code_set :
        (now ttl key : ℕ) (v : TokenPair) (r : S)
        → Codes key
        → api.exchange_codes.set now ttl key v s.exchange_codes ≡ some r
        → t ≡ record s { exchange_codes = r }
        → SsoMove States Codes s t
    code_taken :
        (now key : ℕ)
        → t ≡ record s { exchange_codes = (api.exchange_codes.get_del now key s.exchange_codes).1 }
        → SsoMove States Codes s t

  pub record ClosedSso (States Codes : ℕ → Type 0) (Q : Federation R S → Federation R S → Type 0)
      : Type 0 where
    pub closed : Closed Q
    pub move : {s t : Federation R S} → SsoMove States Codes s t → Q s t

  module _ (States Codes : ℕ → Type 0) (Q : Federation R S → Federation R S → Type 0)
      (c : ClosedSso States Codes Q) where
    across-tenant : (slug : String) → Respects Q (find_tenant_or_throw slug)
    unfolding find_tenant_or_throw
    across-tenant slug =
        across-bind Q c.closed _ _
          (across-gets Q c.closed (λ s. find_tenant_by_slug slug s.tenants))
          (λ found. across-or_throw Q c.closed found tenant_not_found)

    across-upsert_connection : (row : SsoConnection) → Respects Q (upsert_connection row)
    unfolding upsert_connection
    across-upsert_connection row = record {
      at = λ s. c.move (connections_changed (upsert_connection row s).1.sso_connections refl);
    }

    pub across-upsert :
        (crypto : Crypto) (slug : String) (input : SsoInput) → Respects Q (upsert crypto slug input)
    unfolding upsert
    across-upsert crypto slug input = across-bind Q c.closed _ _ (across-tenant slug) (λ tenant.
        across-upsert_connection (record {
          tenant_id = tenant.id;
          issuer_url = input.issuer_url;
          client_id = input.client_id;
          client_secret_encrypted = crypto.encrypt input.client_secret;
          allowed_email_domain = map to_lower (codes input.allowed_email_domain);
          enabled = input.enabled;
        }))

    across-enabled : (o : Option SsoConnection) → Respects Q (assert_enabled o)
    unfolding assert_enabled
    across-enabled none = across-throw Q c.closed _ sso_not_active
    across-enabled (some row) =
        across-if Q c.closed row.enabled _ _ (across-pure Q c.closed row)
          (across-throw Q c.closed _ sso_not_active)

    pub across-active : (slug : String) → Respects Q (get_active_connection_or_throw slug)
    unfolding get_active_connection_or_throw
    across-active slug = across-bind Q c.closed _ _ (across-tenant slug) (λ tenant.
        across-bind Q c.closed _ _ (across-gets Q c.closed (find_connection tenant.id))
          (λ found. across-enabled found))

    pub across-uri :
        (base_url : Option String) (slug : String) → Respects Q (build_redirect_uri base_url slug)
    unfolding build_redirect_uri
    across-uri base_url slug =
        across-bind Q c.closed _ _
          (across-or_throw Q c.closed (non_empty base_url) sso_not_configured)
          (λ base. across-pure Q c.closed (base, slug))

    pub across-client :
        (oidc : Oidc) (crypto : Crypto) (row : SsoConnection) (uri : String × String)
        → Respects Q (build_oidc_client oidc crypto row uri)
    unfolding build_oidc_client
    across-client oidc crypto row uri = record {
      at = λ s. elim (Bool-cases (oidc.discover row.issuer_url)) [
        | inl e ↦ rw e (c.closed.stay s)
        | inr e ↦ rw e (c.closed.stay s)
      ];
    }

    across-taken : {V : Type 0} (r : Exec V) → Respects Q (taken r)
    unfolding taken
    across-taken {V} rejected = across-throw Q c.closed (Option V) remote_failed
    across-taken no_result = across-pure Q c.closed none
    across-taken get_failed = across-pure Q c.closed none
    across-taken (reply v) = across-pure Q c.closed v

    pub across-take_state : (now key : ℕ) → Respects Q (take_state api now key)
    unfolding take_state
    across-take_state now key = record {
      at = λ s.
          c.closed.join (c.move (state_taken now key refl))
            ((across-taken (api.states.get_del now key s.states).0).at _);
    }

    pub across-take_exchange : (now key : ℕ) → Respects Q (take_exchange api now key)
    unfolding take_exchange
    across-take_exchange now key = record {
      at = λ s.
          c.closed.join (c.move (code_taken now key refl))
            ((across-taken (api.exchange_codes.get_del now key s.exchange_codes).0).at _);
    }

    across-new :
        (env : Env) (tenant_id subject : ℕ) (email name : String) (known : Option User)
        → Respects Q (new_identity env tenant_id subject email name known)
    unfolding new_identity
    across-new env tenant_id subject email name known =
        across-bind Q c.closed _ _ (across-user Q c.closed env email name known) (λ u.
          across-bind Q c.closed _ _
            (across-create_identity Q c.closed
              (record { tenant_id = tenant_id; subject = subject; user_id = u.id }))
            (λ done. across-pure Q c.closed u))

    across-identified :
        (o : Option SsoIdentity) (env : Env) (tenant_id subject : ℕ) (email name : String)
        → Respects Q (identified_user o env tenant_id subject email name)
    unfolding identified_user
    across-identified (some identity) env tenant_id subject email name =
        across-bind Q c.closed _ _
          (across-gets Q c.closed (λ s. Users.find_by_id identity.user_id s.database))
          (λ found. across-or_throw Q c.closed found account_missing)
    across-identified none env tenant_id subject email name =
        across-bind Q c.closed _ _
          (across-gets Q c.closed (λ s. Users.find_by_email email s.database))
          (λ known.
            across-if Q c.closed (in_other_tenant tenant_id (tenant_of known)) _ _
              (across-throw Q c.closed User sso_other_tenant)
              (across-new env tenant_id subject email name known))

    pub across-provision :
        (env : Env) (tenant_id subject : ℕ) (email name : String)
        → Respects Q (find_or_provision_user env tenant_id subject email name)
    unfolding find_or_provision_user
    across-provision env tenant_id subject email name =
        across-bind Q c.closed _ _ (across-gets Q c.closed (find_identity tenant_id subject))
          (λ o. across-identified o env tenant_id subject email name)

    pub across-set_state :
        (now key : ℕ) (v : StateData) → States key → Respects Q (set_state api now key v)
    unfolding set_state keep_states
    across-set_state now key v allowed = record {
      at = λ s. elim (Option-cases (api.states.set now state_ttl_seconds key v s.states)) [
        | inl unset ↦ rw unset (c.closed.stay s)
        | inr (r, set) ↦ rw set (c.move (state_set now state_ttl_seconds key v r allowed set refl))
      ];
    }

    pub across-set_exchange :
        (now key : ℕ) (v : TokenPair) → Codes key → Respects Q (set_exchange api now key v)
    unfolding set_exchange keep_exchange_codes
    across-set_exchange now key v allowed = record {
      at = λ s.
          elim (Option-cases
            (api.exchange_codes.set now exchange_code_ttl_seconds key v s.exchange_codes)) [
              | inl unset ↦ rw unset (c.closed.stay s)
              | inr (r, set) ↦
                  rw set (c.move (code_set now exchange_code_ttl_seconds key v r allowed set refl))
            ];
    }
