-- ===== src/Auth/Users.antt =====
-- src/modules/users/user.repository.ts: the lookups and updates that the auth service uses.
use text.Mathlib.Text.{◌==◌ as str_eq}
use backend_foundation.Prelude.{
  ℕ, String, Bool, false, not, ◌&&◌, ◌==◌, Option, none, some, ◌∷◌, map, find, is_some,
  if◌then◌else◌,
}
use backend_foundation.Auth.Data.{User, user, Database, Env, record_not_found, unique_violation}
use backend_foundation.Auth.Monad.{M, modify_unless}

abbrev pub is_live : User → Bool
is_live u = not (is_some u.deleted_at)

unfoldable pub find_by_email : String → Database → Option User
find_by_email email db = find (λ u. str_eq u.email email && is_live u) db.users

unfoldable pub find_by_id : ℕ → Database → Option User
find_by_id id db = find (λ u. u.id == id && is_live u) db.users

-- `email` is unique over all rows, the deleted ones too.
unfoldable pub has_email : String → Database → Bool
has_email email db = is_some (find (λ u. str_eq u.email email) db.users)

unfoldable pub new_user : Env → String → ℕ → String → User
new_user env email password name = record {
  id = env.fresh_id;
  email = email;
  password = some password;
  name = name;
  role = user;
  email_verified_at = none;
  mfa_enabled = false;
  mfa_secret = none;
  deleted_at = none;
  created_at = env.now;
  tenant_id = env.tenant_id;
}

unfoldable pub create : User → M Database (Unit {0})
create row db =
    modify_unless (has_email row.email db) unique_violation
      (λ d. record d { users = row ∷ d.users }) db

-- `prisma.user.update`: throws when no row has the id.
unfoldable pub update : ℕ → (User → User) → M Database (Unit {0})
update id change db =
    modify_unless (not (is_some (find (λ u. u.id == id) db.users))) record_not_found
      (λ d. record d { users = map (λ u. if u.id == id then change u else u) d.users }) db
