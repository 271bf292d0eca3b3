-- ===== src/Federation/Sso/Keys.antt =====
-- src/modules/auth/sso.service.ts: the values that a login at an identity provider goes by, and the
-- one-time keys in Redis. Redis and the OpenID client are parameters.
use backend_foundation.Prelude.{
  ℕ, ◌==◌, Bool, false, not, String, Option, none, some, List, ◌∷◌, map,
}
use backend_foundation.UserAgent.{codes, to_lower}
use backend_foundation.Outbound.{ends_with}
use backend_foundation.Auth.Data.{User, remote_failed}
use backend_foundation.Auth.Monad.{M, pure, throw, modify}
use backend_foundation.Auth.Refresh.{TokenPair}
use backend_foundation.Federation.{Federation}

-- What is kept under `sso:state:…`.
pub record StateData : Type 0 where
  pub tenant_id : ℕ
  pub nonce : ℕ
  pub code_verifier : ℕ

-- What `multi().get(key).del(key).exec()` comes to.
pub data Exec (V : Type 0) : Type 0 where
  rejected : Exec V
  no_result : Exec V
  get_failed : Exec V
  reply : Option V → Exec V

-- Redis under one prefix of keys, at a time: `SET key value EX seconds`, which may fail, and the
-- transaction of GET and DEL.
pub record OneTimeStore (V R : Type 0) : Type 0 where
  pub set : ℕ → ℕ → ℕ → V → R → Option R
  pub get_del : ℕ → ℕ → R → Exec V × R

pub record SsoRedis (R S : Type 0) : Type 0 where
  pub states : OneTimeStore StateData R
  pub exchange_codes : OneTimeStore TokenPair S

pub record OidcClient : Type 0 where
  pub issuer_url : String
  pub client_id : String
  pub client_secret : ℕ
  pub redirect_uri : String × String

pub record IdClaims : Type 0 where
  pub sub : ℕ
  pub email : Option String
  pub name : Option String

-- openid-client: whether `Issuer.discover` finds the issuer, the address of its login page for a
-- state, a nonce and a challenge, and the claims of the id_token for a code, a state, a nonce and a
-- code verifier, where `callback` does not throw.
pub record Oidc : Type 0 where
  pub discover : String → Bool
  pub code_challenge : ℕ → ℕ
  pub authorization_url : OidcClient → ℕ → ℕ → ℕ → String
  pub callback : OidcClient → String → ℕ → ℕ → ℕ → Option IdClaims

-- The fresh values of `buildAuthorizationUrl`.
pub record Draw : Type 0 where
  pub state : ℕ
  pub nonce : ℕ
  pub code_verifier : ℕ

-- The query of a callback.
pub record CallbackQuery : Type 0 where
  pub code : Option String
  pub state : ℕ
  pub error : Option String

-- UpsertSsoConnectionDto.
pub record SsoInput : Type 0 where
  pub issuer_url : String
  pub client_id : String
  pub client_secret : ℕ
  pub allowed_email_domain : String
  pub enabled : Bool

abbrev pub state_ttl_seconds : ℕ
state_ttl_seconds = 300

abbrev pub exchange_code_ttl_seconds : ℕ
exchange_code_ttl_seconds = 60

-- `email.toLowerCase().endsWith('@' + domain.toLowerCase())`
unfoldable pub in_domain : List ℕ → String → Bool
in_domain domain email = ends_with (64 ∷ map to_lower domain) (map to_lower (codes email))

abbrev pub in_other_tenant : ℕ → Option ℕ → Bool
in_other_tenant tenant_id none = false
in_other_tenant tenant_id (some own) = not (own == tenant_id)

abbrev pub tenant_of : Option User → Option ℕ
tenant_of none = none
tenant_of (some u) = u.tenant_id

module _ {R S : Type 0} where
  unfoldable pub keep_states : Option R → M (Federation R S) (Unit {0})
  keep_states none = throw remote_failed
  keep_states (some r) = modify (λ s. record s { states = r })

  unfoldable pub keep_exchange_codes : Option S → M (Federation R S) (Unit {0})
  keep_exchange_codes none = throw remote_failed
  keep_exchange_codes (some r) = modify (λ s. record s { exchange_codes = r })

  -- `redis.set(key, value, 'EX', seconds)`
  unfoldable pub set_state : SsoRedis R S → ℕ → ℕ → StateData → M (Federation R S) (Unit {0})
  unfolding keep_states
  set_state api now state kept s =
      keep_states (api.states.set now state_ttl_seconds state kept s.states) s

  unfoldable pub set_exchange : SsoRedis R S → ℕ → ℕ → TokenPair → M (Federation R S) (Unit {0})
  unfolding keep_exchange_codes
  set_exchange api now code pair s =
      keep_exchange_codes
        (api.exchange_codes.set now exchange_code_ttl_seconds code pair s.exchange_codes) s

  -- `takeOnce`, once the transaction has run.
  unfoldable pub taken : {V : Type 0} → Exec V → M (Federation R S) (Option V)
  taken rejected = throw remote_failed
  taken no_result = pure none
  taken get_failed = pure none
  taken (reply v) = pure v

  unfoldable pub take_state : SsoRedis R S → ℕ → ℕ → M (Federation R S) (Option StateData)
  unfolding taken
  take_state api now state s =
      let r = api.states.get_del now state s.states in taken r.0 (record s { states = r.1 })

  unfoldable pub take_exchange : SsoRedis R S → ℕ → ℕ → M (Federation R S) (Option TokenPair)
  unfolding taken
  take_exchange api now code s =
      let r = api.exchange_codes.get_del now code s.exchange_codes in
      taken r.0 (record s { exchange_codes = r.1 })
