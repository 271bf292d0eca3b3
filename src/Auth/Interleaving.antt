-- ===== src/Auth/Interleaving.antt =====
-- `AuthService.refresh` cut at its awaits, so that requests interleave: each statement on the
-- database is one step, and the code between two statements goes with the first of them.
use backend_foundation.Prelude.{
  ℕ, zero, suc, ◌≡◌, ◌≢◌, Bool, Option, none, some, List, [], ◌∷◌, ◌++◌, All, if◌then◌else◌,
}
use backend_foundation.Auth.Data.{
  User, RefreshToken, DeviceContext, Database, Env, Crypto, AuthError, refresh_token_invalid,
  refresh_token_revoked, refresh_token_expired, session_too_old,
}
use backend_foundation.Auth.Monad.{Result, ok, err}
use backend_foundation.Auth.Users
use backend_foundation.Auth.Repository.{
  find_refresh_token_by_hash, revoke_refresh_token_if_active, revoke_refresh_token_family,
}
use backend_foundation.Auth.Refresh.{
  TokenPair, reused, expired, too_old, usable, check_stored, issue_rotated, issue_tokens_for_user,
}
use backend_foundation.Auth.Sessions.{revoke_session, revoke_all_sessions}

-- What a request for a refresh does next.
pub data Phase : Type 0 where
  -- reads the stored token by the hash of the raw one
  arrived : ℕ → Phase
  -- revokes the family of the token, then throws
  rejecting : RefreshToken → AuthError → Phase
  -- has passed the guards with this reading of the row, and looks the user up
  admitted : RefreshToken → Phase
  -- revokes the row if it is still active
  claiming : RefreshToken → User → Phase
  -- has revoked the row, and creates the new one
  issuing : RefreshToken → User → Phase
  -- has exchanged the token with this id for a pair
  exchanged : ℕ → TokenPair → Phase
  failed : AuthError → Phase

unfoldable pub after_read : ℕ → Option RefreshToken → Phase
unfolding check_stored
after_read now none = failed refresh_token_invalid
after_read now (some t) = elim (check_stored now t) [
  | reused ↦ rejecting t refresh_token_revoked
  | expired ↦ failed refresh_token_expired
  | too_old ↦ rejecting t session_too_old
  | usable ↦ admitted t
]

unfoldable pub after_lookup : RefreshToken → Option User → Phase
after_lookup t none = failed refresh_token_invalid
after_lookup t (some u) = claiming t u

unfoldable pub after_claim : RefreshToken → User → Result Bool → Phase
after_claim t u (ok still_active) =
    if still_active then issuing t u else rejecting t refresh_token_revoked
after_claim t u (err e) = failed e

unfoldable pub after_issue : RefreshToken → Result TokenPair → Phase
after_issue t (ok pair) = exchanged t.id pair
after_issue t (err e) = failed e

-- One step of one request.
unfoldable pub advance : Crypto → Env → Option DeviceContext → Phase → Database → Phase × Database
unfolding after_read after_lookup after_claim after_issue
advance crypto env device (arrived raw) db =
    (after_read env.now (find_refresh_token_by_hash (crypto.hash_secure_token raw) db), db)
advance crypto env device (rejecting t e) db =
    (failed e, revoke_refresh_token_family env.now t.family_id db)
advance crypto env device (admitted t) db = (after_lookup t (Users.find_by_id t.user_id db), db)
advance crypto env device (claiming t u) db =
    let r = revoke_refresh_token_if_active env.now t.id db in (after_claim t u r.0, r.1)
advance crypto env device (issuing t u) db =
    let r = issue_rotated crypto env t device u db in (after_issue t r.0, r.1)
advance crypto env device (exchanged x pair) db = (exchanged x pair, db)
advance crypto env device (failed e) db = (failed e, db)

-- A request that runs alone for a number of steps.
unfoldable pub run_alone :
    Crypto → Env → Option DeviceContext → ℕ → Phase → Database → Phase × Database
run_alone crypto env device zero p db = (p, db)
run_alone crypto env device (suc n) p db =
    let r = advance crypto env device p db in run_alone crypto env device n r.0 r.1

-- The answer of a request that has ended.
unfoldable pub outcome : Phase → Option (Result TokenPair)
outcome (exchanged x pair) = some (ok pair)
outcome (failed e) = some (err e)
outcome _ = none

-- The token that a request holds on to between its steps.
abbrev pub Carries : (RefreshToken → Type 0) → Phase → Type 0
Carries P (rejecting t e) = P t
Carries P (admitted t) = P t
Carries P (claiming t u) = P t
Carries P (issuing t u) = P t
Carries P _ = Unit

abbrev pub Ended : (ℕ → Type 0) → Phase → Type 0
Ended P (exchanged x pair) = P x
Ended P _ = Unit

pub record System : Type 0 where
  pub db : Database
  pub requests : List Phase

-- Random values are new: no row, and no token that a request holds or has exchanged, has them.
pub record IsFresh (env : Env) (s : System) : Type 0 where
  pub id_unstored : All (λ t. t.id ≢ env.fresh_id) s.db.refresh_tokens
  pub family_unstored : All (λ t. t.family_id ≢ env.fresh_family) s.db.refresh_tokens
  pub id_unheld : All (Carries (λ t. t.id ≢ env.fresh_id)) s.requests
  pub family_unheld : All (Carries (λ t. t.family_id ≢ env.fresh_family)) s.requests
  pub id_unused : All (Ended (λ x. x ≢ env.fresh_id)) s.requests

-- Requests arrive and advance in any order; logins, logouts and revocations go on between them.
pub data Step (crypto : Crypto) (s s' : System) : Type 0 where
  arrive :
      (raw : ℕ) → s' ≡ record { db = s.db; requests = arrived raw ∷ s.requests } → Step crypto s s'
  proceed :
      (env : Env) (device : Option DeviceContext) (before after : List Phase) (p : Phase)
      → IsFresh env s
      → s.requests ≡ before ++ p ∷ after
      → s' ≡ record {
        db = (advance crypto env device p s.db).1;
        requests = before ++ (advance crypto env device p s.db).0 ∷ after;
      }
      → Step crypto s s'
  sign_in :
      (env : Env) (device : Option DeviceContext) (u : User)
      → IsFresh env s
      → s'
        ≡ record { db = (issue_tokens_for_user crypto env u device s.db).1; requests = s.requests }
      → Step crypto s s'
  sign_out :
      (env : Env) (user_id session_id : ℕ)
      → s' ≡ record { db = (revoke_session env user_id session_id s.db).1; requests = s.requests }
      → Step crypto s s'
  sign_out_everywhere :
      (env : Env) (user_id : ℕ)
      → s' ≡ record { db = (revoke_all_sessions env user_id s.db).1; requests = s.requests }
      → Step crypto s s'

-- Any number of steps, from a database with no request under way.
pub data Reach (crypto : Crypto) (start : Database) : System → Type 0 where
  begin : Reach crypto start (record { db = start; requests = [] })
  later : {s s' : System} → Reach crypto start s → Step crypto s s' → Reach crypto start s'
