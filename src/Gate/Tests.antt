-- ===== src/Gate/Tests.antt =====
-- Requests, keys and tenants of the sample.
use backend_foundation.Prelude.{ℕ, suc, arith, ◌≡◌, ◌≢◌, refl, true, none, some, List, [], ◌∷◌}
use backend_foundation.Auth.Data.{user}
use backend_foundation.Auth.Monad.{ok, err}
use backend_foundation.Auth.Data.{tenant_inactive, key_revoked}
use backend_foundation.Auth.Users
use backend_foundation.Auth.Sample.{toy, db, at}
use backend_foundation.Auth.Repository.{
  add_to_blacklist, find_refresh_token_by_hash, revoke_refresh_token,
}
use backend_foundation.Auth.Sessions.{logout}
use backend_foundation.Auth.History.{revokes_all}
use backend_foundation.Access.{event_read, includes, has_permission, next, require_permission}
use backend_foundation.Gate.Tenants.{
  update_status, suspended, find_tenant_by_id, find_tenant_by_slug,
}
use backend_foundation.Gate.Keys.{
  find_key_by_hash, find_key_for_user, known, create_key, revoke_key, authenticate,
}
use backend_foundation.Gate.KeySteps.{KeyCall, revokes, overrides, authenticates, run_keys}
use backend_foundation.Gate.Limits.{CounterRedis, free}
use backend_foundation.Gate.Quota.{CountsUp, count_passed, quota_exact}
use backend_foundation.Gate.KeyLaws.{revoked_key_final}
use backend_foundation.Gate.Request.{
  api_key, jwt, no_bearer, GateState, auth_middleware, request_user, enter,
}
use backend_foundation.Gate.Entry.{KeyShown, key_request_allowed}
use backend_foundation.Gate.TenantEntry.{MayAct, tenant_bound}
use backend_foundation.Gate.Blacklist.{Moment, calls, cleans_up, after}
use backend_foundation.Gate.Logout.{logout_final}
use backend_foundation.Gate.Suspension.{suspended_tenant_shut}
use backend_foundation.Gate.Sample.{
  Cells, cells, cells-DelWorks, toy_verify-JwtLaws, acme, key, out, state, ada_by_key, ada_by_token,
}

by_key : (auth_middleware out 100 (some 70) (api_key 81) state).0 ≡ ok ada_by_key
unfolding auth_middleware Users.find_by_id
by_key = refl

by_token : (auth_middleware out 100 none (jwt 9) state).0 ≡ ok ada_by_token
unfolding auth_middleware
by_token = refl

may_read : require_permission event_read (some (request_user ada_by_key)) ≡ next
unfolding require_permission
may_read = refl

key_request_allowed_example :
    (shown : KeyShown out 100 81 state ada_by_key) × (has_permission shown.owner.role event_read
      ≡ true)
    × (includes shown.key.scopes event_read ≡ true)
key_request_allowed_example =
    key_request_allowed out 100 (some 70) 81 state ada_by_key event_read by_key may_read

tenant_bound_example : MayAct out 100 (api_key 81) state ada_by_key 70
tenant_bound_example = tenant_bound out 100 70 (api_key 81) state ada_by_key by_key

abbrev history : List Moment
history = calls (at 300, revokes_all 1) ∷ cleans_up 900 ∷ []

logged_out : (logout toy (at 200) 1 77 5 20 db).0 ≡ ok tt
unfolding logout add_to_blacklist find_refresh_token_by_hash revoke_refresh_token
logged_out = refl

abbrev later : GateState Cells
later = record state { db = after toy history (logout toy (at 200) 1 77 5 20 db).1 }

logout_final_example : (auth_middleware out 1000 (some 70) (jwt 9) later).0 ≢ ok ada_by_token
logout_final_example =
    logout_final out toy_verify-JwtLaws toy 100 1000 (at 200) none (some 70) 9 77 5 20 state later
      ada_by_token ada_by_token db history by_token refl refl logged_out (omega arith, tt) refl

abbrev key_calls : List KeyCall
key_calls = overrides 11 (some 5) ∷ revokes (at 50) 1 80 ∷ authenticates 60 21 ∷ []

made :
    (create_key
      (λ raw. raw)
      (at 10)
      1
      user
      "ci"
      (some (known event_read ∷ []))
      (some 4000)
      (key ∷ [])).0
    ≡ ok 21
unfolding create_key
made = refl

found : find_key_by_hash 81 (key ∷ []) ≡ some key
unfolding find_key_by_hash
found = refl

own : find_key_for_user 80 1 (key ∷ []) ≡ some key
unfolding find_key_for_user
own = refl

revoked_key_final_example :
    ((revoke_key (at 50) 1 80 (key ∷ [])).0 ≡ ok tt)
    × ((authenticate
          (λ raw. raw)
          70
          81
          (run_keys (λ raw. raw) key_calls (revoke_key (at 50) 1 80 (key ∷ [])).1)).0
        ≡ err key_revoked)
revoked_key_final_example =
    revoked_key_final (λ raw. raw) (at 50) (key ∷ []) key 81 70 key_calls found own

acme_by_id : find_tenant_by_id 70 state.tenants ≡ some acme
unfolding find_tenant_by_id
acme_by_id = refl

acme_by_slug : find_tenant_by_slug acme.slug state.tenants ≡ some acme
unfolding find_tenant_by_slug
acme_by_slug = refl

abbrev shut : GateState Cells
shut = record {
  db = db;
  keys = key ∷ [];
  tenants = (update_status (some cells) 70 suspended (state.tenants, state.redis)).1.0;
  redis = (update_status (some cells) 70 suspended (state.tenants, state.redis)).1.1;
}

suspended_tenant_shut_example :
    ((update_status (some cells) 70 suspended (state.tenants, state.redis)).0 ≡ ok tt)
    × ((auth_middleware out 100 none (api_key 81) shut).0 ≢ ok ada_by_key)
    × ((enter out 100 (some "acme") no_bearer shut).0 ≡ err tenant_inactive)
suspended_tenant_shut_example =
    suspended_tenant_shut out cells-DelWorks 70 acme 100 none 81 no_bearer state shut key ada_by_key
      acme_by_id acme_by_slug refl refl refl found refl

abbrev counter : CounterRedis ℕ
counter = record { count = λ now key_id seconds r. some (suc r, suc r) }

counter-CountsUp : CountsUp counter 80 (λ r. r)
counter-CountsUp = record { next = λ now r. (suc r, refl, refl) }

quota_exact_example : count_passed counter 100 80 (some free) (some 2) (10 ∷ 11 ∷ 12 ∷ []) 0 ≡ 2
quota_exact_example =
    quota_exact counter 100 80 (some free) (some 2) (λ r. r) counter-CountsUp (10 ∷ 11 ∷ 12 ∷ []) 0
      refl
