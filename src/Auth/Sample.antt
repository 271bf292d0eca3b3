-- ===== src/Auth/Sample.antt =====
-- A small database and arithmetic in place of the cryptography, for running src/modules/auth.
use backend_foundation.Prelude.{ℕ, ◌==◌, true, false, none, some, List, [], ◌∷◌, if◌then◌else◌}
use backend_foundation.Auth.Data.{User, user, RefreshToken, Database, Env, Crypto, mfa_challenge}
use backend_foundation.Auth.Refresh.{TokenPair}

abbrev pub toy : Crypto
toy = record {
  hash_secure_token = λ raw. raw;
  hash_password = λ p. 7;
  compare_password = λ p hash. hash == 7;
  sign = λ c now. 50;
  verify = λ token now. if token == 9 then some (mfa_challenge 2) else none;
  encrypt = λ n. n;
  decrypt = λ n. n;
  check_totp = λ code secret now. secret == 5;
}

abbrev pub ada : User
ada = record {
  id = 1;
  email = "ada@x.org";
  password = some 7;
  name = "Ada";
  role = user;
  email_verified_at = some 0;
  mfa_enabled = false;
  mfa_secret = none;
  deleted_at = none;
  created_at = 0;
  tenant_id = none;
}

abbrev pub mia : User
mia = record ada {
  id = 2;
  email = "mia@x.org";
  password = some 8;
  mfa_enabled = true;
  mfa_secret = some 5;
}

abbrev pub gone : User
gone = record ada { id = 3; email = "gone@x.org"; deleted_at = some 3 }

abbrev pub row : RefreshToken
row = record {
  id = 10;
  token_hash = 20;
  user_id = 1;
  expires_at = 1000;
  revoked_at = none;
  created_at = 0;
  user_agent = none;
  ip_address = none;
  family_id = 30;
  family_session_expires_at = 2000;
}

abbrev pub with_rows : List RefreshToken → Database
with_rows ts = record {
  users = ada ∷ mia ∷ gone ∷ [];
  refresh_tokens = ts;
  email_tokens = [];
  reset_tokens = record { id = 60; token_hash = 61; user_id = 1; expires_at = 500 } ∷ [];
  recovery_codes = [];
  blacklist = [];
  audit_log = [];
  outbox = [];
  invalidated_profiles = [];
}

abbrev pub db : Database
db = with_rows (row ∷ [])

abbrev pub at : ℕ → Env
at n = record {
  now = n;
  fresh_id = 11;
  fresh_token = 21;
  fresh_family = 31;
  fresh_jti = 41;
  tenant_id = none;
}

abbrev pub at' : ℕ → Env
at' n = record {
  now = n;
  fresh_id = 12;
  fresh_token = 22;
  fresh_family = 32;
  fresh_jti = 42;
  tenant_id = none;
}

abbrev pub pair : TokenPair
pair = record { access_token = 50; refresh_token = 21 }

abbrev pub pair' : TokenPair
pair' = record { access_token = 50; refresh_token = 22 }
