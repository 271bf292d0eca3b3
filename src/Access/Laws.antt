-- ===== src/Access/Laws.antt =====
-- The roles are nested, and an API key only narrows what its owner may do.
use backend_foundation.Prelude.{
  ◌≡◌, ◌≢◌, refl, true, false, Option, none, some, List, arith, ◌⊎◌, inl, inr,
}
use backend_foundation.Auth.Data.{Role, user, organizer, admin}
use backend_foundation.Access.{
  Permission, event_read, event_create, event_update, event_delete, event_moderate, product_read,
  product_create, product_update, product_moderate, upload_create, upload_moderate, user_read,
  user_manage, audit_read, dashboard_read, feature_flag_manage, tenant_manage, sso_manage,
  api_key_manage, includes, has_permission, RequestUser, next, require_permission,
}

nested : (p : Permission) → (has_permission user p ≡ false) ⊎ (has_permission organizer p ≡ true)
unfolding has_permission
nested event_read = inr refl
nested event_create = inl refl
nested event_update = inl refl
nested event_delete = inl refl
nested event_moderate = inl refl
nested product_read = inr refl
nested product_create = inl refl
nested product_update = inl refl
nested product_moderate = inl refl
nested upload_create = inr refl
nested upload_moderate = inl refl
nested user_read = inl refl
nested user_manage = inl refl
nested audit_read = inl refl
nested dashboard_read = inl refl
nested feature_flag_manage = inl refl
nested tenant_manage = inl refl
nested sso_manage = inl refl
nested api_key_manage = inl refl

admin-all : (p : Permission) → has_permission admin p ≡ true
unfolding has_permission
admin-all event_read = refl
admin-all event_create = refl
admin-all event_update = refl
admin-all event_delete = refl
admin-all event_moderate = refl
admin-all product_read = refl
admin-all product_create = refl
admin-all product_update = refl
admin-all product_moderate = refl
admin-all upload_create = refl
admin-all upload_moderate = refl
admin-all user_read = refl
admin-all user_manage = refl
admin-all audit_read = refl
admin-all dashboard_read = refl
admin-all feature_flag_manage = refl
admin-all tenant_manage = refl
admin-all sso_manage = refl
admin-all api_key_manage = refl

-- What the guard lets a user do it lets an organizer do, with the same API key scopes; and what it
-- lets any role do it lets an admin do.
pub roles_nested :
    (p : Permission) (role : Role) (scopes : Option (List Permission))
    → require_permission p (some (record { role = role; api_key_scopes = scopes })) ≡ next
    → ((role ≢ user)
        ⊎ (require_permission p (some (record { role = organizer; api_key_scopes = scopes }))
            ≡ next))
      × (require_permission p (some (record { role = admin; api_key_scopes = scopes })) ≡ next)
unfolding require_permission
roles_nested p user scopes h = (inr (ground (arith, nested p)), ground (arith, admin-all p))
roles_nested p organizer scopes h = (inl (λ e. cc), ground (arith, admin-all p))
roles_nested p admin scopes h = (inl (λ e. cc), ground (arith, admin-all p))

-- A request with an API key goes on only if the role of the key's owner has the permission and the
-- key has it among its scopes; without the key the same owner would go on as well.
pub scopes_narrow :
    (p : Permission) (u : RequestUser) (scopes : List Permission)
    → u.api_key_scopes ≡ some scopes
    → require_permission p (some u) ≡ next
    → (has_permission u.role p ≡ true)
      × (includes scopes p ≡ true)
      × (require_permission p (some (record u { api_key_scopes = none })) ≡ next)
unfolding require_permission
scopes_narrow p u scopes e h = (ground arith, ground arith, ground arith)
