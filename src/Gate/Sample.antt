-- ===== src/Gate/Sample.antt =====
-- A tenant, a key and a token, with small functions in place of Redis and of `jsonwebtoken`.
use backend_foundation.Prelude.{
  ℕ, ◌<◌, ◌≡◌, refl, ◌==◌, ltb, Option, none, some, [], ◌∷◌, arith, if◌then◌else◌,
}
use backend_foundation.Auth.Data.{user}
use backend_foundation.Auth.Sample.{db}
use backend_foundation.Access.{event_read}
use backend_foundation.Gate.Limits.{pro}
use backend_foundation.Gate.Tenants.{Tenant, TenantStatus, active, TenantCaches}
use backend_foundation.Gate.Keys.{ApiKey}
use backend_foundation.Gate.Request.{
  JwtPayload, access_payload, Verified, verified, expired, invalid, Surroundings, GateState,
  Identity, token_jti, key_jti,
}
use backend_foundation.Gate.Logout.{JwtLaws}
use backend_foundation.Gate.TenantUpdate.{DelWorks}

-- What Redis has of the one tenant.
abbrev pub Cells : Type 0
Cells = Option (Option Tenant) × Option (Option TenantStatus)

abbrev pub cells : TenantCaches Cells
cells = record {
  by_slug = record {
    get = λ now key r. some r.0;
    set_ex = λ now key ttl v r. some (some v, r.1);
    del = λ key r. some (none, r.1);
  };
  plan_by_id = record {
    get = λ now key r. some none;
    set_ex = λ now key ttl v r. some r;
    del = λ key r. some r;
  };
  status_by_id = record {
    get = λ now key r. some r.1;
    set_ex = λ now key ttl v r. some (r.0, some v);
    del = λ key r. some (r.0, none);
  };
}

pub cells-DelWorks : DelWorks cells
cells-DelWorks = record {
  slug_del = λ slug r. (_, refl);
  status_del = λ id r. (_, refl);
  slug_gone = λ now slug r r' v e held. cc (e, held);
  status_gone = λ now id r r' v e held. cc (e, held);
  slug_stays = λ now id slug r r' e. cc (e);
}

-- The token 9 is good for five seconds.
abbrev pub payload : JwtPayload
payload = access_payload 1 "ada@x.org" user 77 5

abbrev pub toy_verify : ℕ → ℕ → ℕ → Verified
toy_verify secret now token =
    if token == 9 then (if ltb now 5000 then verified payload else expired) else invalid

toy_verify-payload :
    (secret now token : ℕ) (p : JwtPayload)
    → toy_verify secret now token ≡ verified p
    → (p ≡ payload) × (now < 5000)
toy_verify-payload secret now token p h = ground (arith, h)

exp_of_payload : JwtPayload → ℕ
exp_of_payload (access_payload id email role jti exp) = exp
exp_of_payload _ = 0

pub toy_verify-JwtLaws : JwtLaws toy_verify
toy_verify-JwtLaws = record {
  one_payload = λ secret secret' now now' token p q h k.
      let (a, in_time) = toy_verify-payload secret now token p h in
      let (b, in_time') = toy_verify-payload secret' now' token q k in cc (a, b);
  unexpired = λ secret now token id email role jti exp h.
      let (a, in_time) = toy_verify-payload secret now token _ h in
      let five : exp ≡ 5 = cc (a) in omega (arith, in_time, five);
}

abbrev pub acme : Tenant
acme = record {
  id = 70;
  slug = "acme";
  name = "Acme";
  plan = pro;
  status = active;
  deleted_at = none;
}

abbrev pub key : ApiKey
key = record {
  id = 80;
  user_id = 1;
  tenant_id = some 70;
  name = "ci";
  key_hash = 81;
  scopes = event_read ∷ [];
  expires_at = some 4000;
  revoked_at = none;
  last_used_at = none;
  rate_limit_override = none;
  created_at = 0;
}

abbrev pub out : Surroundings Cells
out = record {
  jwt_verify = toy_verify;
  secret = 1;
  previous_secret = some 2;
  hash_key = λ raw. raw;
  gateway_limit = 100;
  caches = some cells;
  counter = none;
}

abbrev pub state : GateState Cells
state = record { db = db; keys = key ∷ []; tenants = acme ∷ []; redis = (none, none) }

abbrev pub ada_by_key : Identity
ada_by_key = record {
  id = 1;
  email = "ada@x.org";
  role = user;
  jti = key_jti 80;
  exp = some 4;
  api_key_scopes = some (event_read ∷ []);
}

abbrev pub ada_by_token : Identity
ada_by_token = record {
  id = 1;
  email = "ada@x.org";
  role = user;
  jti = token_jti 77;
  exp = some 5;
  api_key_scopes = none;
}
