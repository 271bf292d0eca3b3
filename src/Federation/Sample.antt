-- ===== src/Federation/Sample.antt =====
-- A small store of one-time keys, and a provider that vouches for fixed people.
use backend_foundation.Prelude.{
  ℕ, String, ◌==◌, ==_refl, ◌≡◌, ◌≢◌, refl, subst, true, false, Option, none, some, [], ◌∷◌, arith,
  if◌then◌else◌,
}
use backend_foundation.UserAgent.{codes}
use backend_foundation.Auth.Sample.{db}
use backend_foundation.Gate.Sample.{acme}
use backend_foundation.Federation.{Federation, google, SsoConnection}
use backend_foundation.Federation.Oauth.{GooglePayload, GoogleAnswer, ticket}
use backend_foundation.Federation.Sso.{
  StateData, reply, OneTimeStore, SsoRedis, Oidc, CallbackQuery,
}
use backend_foundation.Auth.Refresh.{TokenPair}
use backend_foundation.Federation.OneTime.{SingleUse}

module _ {V : Type 0} where
  abbrev pub put : ℕ → V → (ℕ → Option V) → ℕ → Option V
  put key v r k = if k == key then some v else r k

  abbrev pub without : ℕ → (ℕ → Option V) → ℕ → Option V
  without key r k = if k == key then none else r k

abbrev pub store : (V : Type 0) → OneTimeStore V (ℕ → Option V)
store V = record {
  set = λ now ttl key v r. some (put key v r);
  get_del = λ now key r. (reply (r key), without key r);
}

module _ {V : Type 0} where
  without-same : (key : ℕ) (r : ℕ → Option V) → without key r key ≡ none
  without-same key r = rw (==_refl key) refl

  without-none : (key other : ℕ) (r : ℕ → Option V) → r key ≡ none → without other r key ≡ none
  without-none key other r e = ground (arith, e)

  put-other :
      (key other : ℕ) (v : V) (r : ℕ → Option V)
      → other ≢ key
      → r key ≡ none
      → put other v r key ≡ none
  put-other key other v r differ e = ground (arith, e, differ)

pub store-SingleUse : (V : Type 0) → SingleUse (store V)
store-SingleUse V = record {
  Gone = λ key r. r key ≡ none;
  taken_gone = λ now key r e. without-same key r;
  gone_empty = λ now key r gone e. cc (gone, e);
  gone_taken = λ now key other r gone. without-none key other r gone;
  gone_set = λ now ttl key other v r after differ e gone.
      let same : put other v r ≡ after = cc e in
      subst (λ (f : ℕ → Option V). f key ≡ none) same (put-other key other v r differ gone);
}

abbrev pub States : Type 0
States = ℕ → Option StateData

abbrev pub Codes : Type 0
Codes = ℕ → Option TokenPair

abbrev pub redis : SsoRedis States Codes
redis = record { states = store StateData; exchange_codes = store TokenPair }

-- Google vouches for ada, whose email it has not checked.
abbrev pub google_ada : GooglePayload
google_ada = record {
  sub = 900;
  email = some "ada@x.org";
  email_verified = some false;
  name = none;
}

abbrev pub verify_google : String → GoogleAnswer
verify_google id_token = ticket (some google_ada)

abbrev pub connection : SsoConnection
connection = record {
  tenant_id = 70;
  issuer_url = "https://idp.acme.com";
  client_id = "acme";
  client_secret_encrypted = 5;
  allowed_email_domain = codes "acme.com";
  enabled = true;
}

abbrev pub oidc : Oidc
oidc = record {
  discover = λ url. true;
  code_challenge = λ n. n;
  authorization_url = λ client state nonce challenge. "https://idp.acme.com/login";
  callback = λ client code state nonce verifier.
      some (record { sub = 700; email = some "Eve@ACME.com"; name = none });
}

abbrev pub kept : StateData
kept = record { tenant_id = 70; nonce = 401; code_verifier = 402 }

abbrev pub start : Federation States Codes
start = record {
  database = db;
  oauth_accounts = record { provider = google; provider_account_id = 901; user_id = 1 } ∷ [];
  tenants = acme ∷ [];
  sso_connections = connection ∷ [];
  sso_identities = [];
  states = λ k. if k == 400 then some kept else none;
  exchange_codes =
      λ k. if k == 500 then some (record { access_token = 50; refresh_token = 21 }) else none;
}

abbrev pub query : CallbackQuery
query = record { code = some "abc"; state = 400; error = none }
