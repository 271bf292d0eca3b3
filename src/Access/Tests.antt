-- ===== src/Access/Tests.antt =====
-- Runs of src/shared/middlewares/permission.middleware.ts.
use backend_foundation.Prelude.{◌≡◌, refl, some, [], ◌∷◌}
use backend_foundation.Auth.Data.{organizer, admin}
use backend_foundation.Access.{
  event_read, event_create, RequestUser, next, require_permission, forbidden, require_role,
}

abbrev key : RequestUser
key = record { role = organizer; api_key_scopes = some (event_read ∷ []) }

out_of_scope_test : require_permission event_create (some key) ≡ forbidden
unfolding require_permission
out_of_scope_test = refl

role_test : require_role (admin ∷ organizer ∷ []) (some key) ≡ next
unfolding require_role
role_test = refl
