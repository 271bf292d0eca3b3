-- ===== src/Access.antt =====
-- Who may do what: src/shared/security/permissions.ts and the two guards
-- src/shared/middlewares/permission.middleware.ts and role.middleware.ts.
use backend_foundation.Prelude.{
  ℕ, ◌==◌, Bool, true, false, not, ◌&&◌, ◌||◌, Option, none, some, List, [], ◌∷◌, if◌then◌else◌,
}
use backend_foundation.Auth.Data.{Role, user, organizer, admin}
pub mod Laws
mod Tests

pub data Permission : Type 0 where
  event_read event_create event_update event_delete event_moderate : Permission
  product_read product_create product_update product_moderate : Permission
  upload_create upload_moderate : Permission
  user_read user_manage audit_read dashboard_read : Permission
  feature_flag_manage tenant_manage sso_manage api_key_manage : Permission

-- The place of a permission in the declaration of the type; two are the same if it is the same.
abbrev pub place : Permission → ℕ
place event_read = 0
place event_create = 1
place event_update = 2
place event_delete = 3
place event_moderate = 4
place product_read = 5
place product_create = 6
place product_update = 7
place product_moderate = 8
place upload_create = 9
place upload_moderate = 10
place user_read = 11
place user_manage = 12
place audit_read = 13
place dashboard_read = 14
place feature_flag_manage = 15
place tenant_manage = 16
place sso_manage = 17
place api_key_manage = 18

abbrev pub includes : List Permission → Permission → Bool
includes [] p = false
includes (q ∷ qs) p = place q == place p || includes qs p

unfoldable pub role_permissions : Role → List Permission
role_permissions user = event_read ∷ product_read ∷ upload_create ∷ []
role_permissions organizer =
    event_read ∷ event_create ∷ event_update ∷ event_delete ∷ product_read ∷ product_create
    ∷ product_update ∷ upload_create ∷ []
role_permissions admin =
    event_read ∷ event_create ∷ event_update ∷ event_delete ∷ event_moderate ∷ product_read
    ∷ product_create ∷ product_update ∷ product_moderate ∷ upload_create ∷ upload_moderate
    ∷ user_read ∷ user_manage ∷ audit_read ∷ dashboard_read ∷ feature_flag_manage ∷ tenant_manage
    ∷ sso_manage ∷ api_key_manage ∷ []

unfoldable pub has_permission : Role → Permission → Bool
unfolding role_permissions
has_permission role p = includes (role_permissions role) p

-- `req.user`: a request with an API key carries the scopes of the key.
pub record RequestUser : Type 0 where
  pub role : Role
  pub api_key_scopes : Option (List Permission)

-- `next()` is called, or one of two errors is thrown.
pub data Access : Type 0 where
  next unauthorized forbidden : Access

abbrev in_scope : Option (List Permission) → Permission → Bool
in_scope none p = true
in_scope (some scopes) p = includes scopes p

unfoldable pub require_permission : Permission → Option RequestUser → Access
unfolding has_permission
require_permission p none = unauthorized
require_permission p (some u) =
    if not (has_permission u.role p)
    then forbidden
    else if not (in_scope u.api_key_scopes p)
    then forbidden
    else next

abbrev role_place : Role → ℕ
role_place user = 0
role_place organizer = 1
role_place admin = 2

abbrev pub includes_role : List Role → Role → Bool
includes_role [] r = false
includes_role (q ∷ qs) r = role_place q == role_place r || includes_role qs r

unfoldable pub require_role : List Role → Option RequestUser → Access
require_role allowed none = unauthorized
require_role allowed (some u) = if includes_role allowed u.role then next else forbidden
