-- ===== src/Gate/Keys.antt =====
-- src/modules/api-keys/api-key.service.ts and api-key.repository.ts. A raw key is a number that
-- `hash_key` hashes; the prefix that is shown of it is left out.
use backend_foundation.Prelude.{
  ℕ, ◌==◌, String, Bool, false, not, ◌&&◌, leb, Option, none, some, List, [], ◌∷◌, map, find, keep,
  is_some, if◌then◌else◌,
}
use backend_foundation.Auth.Data.{
  Role, Env, key_invalid, key_revoked, key_expired, key_not_found, scope_exceeds, expiry_not_future,
  unique_violation, record_not_found,
}
use backend_foundation.Auth.Monad.{
  Result, ok, err, M, pure, throw, ◌>>=◌, ◌>>◌, gets, or_throw, modify_unless,
}
use backend_foundation.Access.{Permission, includes, role_permissions}

pub record ApiKey : Type 0 where
  pub id : ℕ
  pub user_id : ℕ
  pub tenant_id : Option ℕ
  pub name : String
  pub key_hash : ℕ
  pub scopes : List Permission
  pub expires_at : Option ℕ
  pub revoked_at : Option ℕ
  pub last_used_at : Option ℕ
  pub rate_limit_override : Option ℕ
  pub created_at : ℕ

-- The texts that a caller may ask for as scopes.
pub data Scope : Type 0 where
  known : Permission → Scope
  unknown : String → Scope

unfoldable pub find_key_by_hash : ℕ → List ApiKey → Option ApiKey
find_key_by_hash hash ks = find (λ k. k.key_hash == hash) ks

unfoldable pub find_key_by_id : ℕ → List ApiKey → Option ApiKey
find_key_by_id id ks = find (λ k. k.id == id) ks

unfoldable pub find_key_for_user : ℕ → ℕ → List ApiKey → Option ApiKey
find_key_for_user id user_id ks = find (λ k. k.id == id && k.user_id == user_id) ks

unfoldable pub update_key : ℕ → (ApiKey → ApiKey) → M (List ApiKey) (Unit {0})
update_key id change ks =
    modify_unless (not (is_some (find (λ k. k.id == id) ks))) record_not_found
      (map (λ k. if k.id == id then change k else k)) ks

unfoldable pub insert_key : ApiKey → M (List ApiKey) (Unit {0})
insert_key row ks =
    modify_unless (is_some (find (λ k. k.key_hash == row.key_hash) ks)) unique_violation
      (λ rest. row ∷ rest) ks

abbrev pub within : Role → Scope → Bool
within role (known p) = includes (role_permissions role) p
within role (unknown text) = false

-- What is stored: each text that was asked for, all of which are names of permissions.
abbrev pub names : List Scope → List Permission
names [] = []
names (known p ∷ rest) = p ∷ names rest
names (unknown text ∷ rest) = names rest

abbrev pub disallowed : Role → List Scope → List Scope
disallowed role scopes = keep (λ s. not (within role s)) scopes

abbrev pub granted : List Scope → List Scope → Result (List Permission)
granted requested [] = ok (names requested)
granted requested (s ∷ rest) = err scope_exceeds

unfoldable pub resolve_scopes : Role → Option (List Scope) → Result (List Permission)
unfolding role_permissions
resolve_scopes role none = ok (role_permissions role)
resolve_scopes role (some []) = ok (role_permissions role)
resolve_scopes role (some (s ∷ rest)) = granted (s ∷ rest) (disallowed role (s ∷ rest))

abbrev pub past : ℕ → Option ℕ → Bool
past now none = false
past now (some at) = leb at now

abbrev pub new_key : (ℕ → ℕ) → Env → ℕ → String → Option ℕ → List Permission → ApiKey
new_key hash_key env owner_id name expires_at scopes = record {
  id = env.fresh_id;
  user_id = owner_id;
  tenant_id = env.tenant_id;
  name = name;
  key_hash = hash_key env.fresh_token;
  scopes = scopes;
  expires_at = expires_at;
  revoked_at = none;
  last_used_at = none;
  rate_limit_override = none;
  created_at = env.now;
}

abbrev pub lift_result : {A : Type 0} → Result A → M (List ApiKey) A
lift_result r ks = (r, ks)

-- The answer is the raw key, `env.fresh_token`.
unfoldable pub create_key :
    (ℕ → ℕ) → Env → ℕ → Role → String → Option (List Scope) → Option ℕ → M (List ApiKey) ℕ
unfolding resolve_scopes insert_key
create_key hash_key env owner_id role name requested expires_at = do
  scopes ← lift_result (resolve_scopes role requested)
  if past env.now expires_at then throw expiry_not_future else (do
    insert_key (new_key hash_key env owner_id name expires_at scopes)
    pure env.fresh_token)

abbrev pub revoke_unless_revoked : Env → ApiKey → M (List ApiKey) (Unit {0})
revoke_unless_revoked env k =
    if is_some k.revoked_at
    then pure tt
    else update_key k.id (λ x. record x { revoked_at = some env.now })

unfoldable pub revoke_key : Env → ℕ → ℕ → M (List ApiKey) (Unit {0})
unfolding find_key_for_user update_key
revoke_key env user_id id = do
  found ← gets (find_key_for_user id user_id)
  k ← or_throw found key_not_found
  revoke_unless_revoked env k

unfoldable pub update_rate_limit_override : ℕ → Option ℕ → M (List ApiKey) (Option ℕ)
unfolding find_key_by_id update_key
update_rate_limit_override id value = do
  found ← gets (find_key_by_id id)
  k ← or_throw found key_not_found
  update_key id (λ x. record x { rate_limit_override = value })
  pure k.rate_limit_override

abbrev pub check_key : ℕ → ApiKey → Result ApiKey
check_key now k =
    if is_some k.revoked_at
    then err key_revoked
    else if past now k.expires_at
    then err key_expired
    else ok k

-- `touchLastUsed`, whose errors are logged and dropped.
abbrev pub touch : ℕ → ℕ → List ApiKey → List ApiKey
touch now id ks = map (λ k. if k.id == id then record k { last_used_at = some now } else k) ks

abbrev pub touched : ℕ → Result ApiKey → M (List ApiKey) ApiKey
touched now (ok k) ks = (ok k, touch now k.id ks)
touched now (err e) ks = (err e, ks)

unfoldable pub authenticate : (ℕ → ℕ) → ℕ → ℕ → M (List ApiKey) ApiKey
unfolding find_key_by_hash
authenticate hash_key now raw = do
  found ← gets (find_key_by_hash (hash_key raw))
  k ← or_throw found key_invalid
  touched now (check_key now k)

abbrev pub tenant_of_valid : Result ApiKey → Option ℕ
tenant_of_valid (ok k) = k.tenant_id
tenant_of_valid (err e) = none

abbrev pub tenant_of_found : ℕ → Option ApiKey → Option ℕ
tenant_of_found now none = none
tenant_of_found now (some k) = tenant_of_valid (check_key now k)

unfoldable pub find_tenant_id_by_raw_key : (ℕ → ℕ) → ℕ → ℕ → List ApiKey → Option ℕ
unfolding find_key_by_hash
find_tenant_id_by_raw_key hash_key now raw ks =
    tenant_of_found now (find_key_by_hash (hash_key raw) ks)
