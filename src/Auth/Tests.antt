-- ===== src/Auth/Tests.antt =====
-- Runs of src/modules/auth/auth.service.ts: refresh, and a history of calls.
use backend_foundation.Prelude.{◌≤◌, ◌≡◌, ◌≢◌, refl, none, some, List, [], ◌∷◌, Memᴰ, arith}
use backend_foundation.Auth.Data.{RefreshToken, refresh_token_revoked}
use backend_foundation.Auth.Monad.{err}
use backend_foundation.Auth.Users
use backend_foundation.Auth.Refresh.{refresh, refresh_row}
use backend_foundation.Auth.Repository.{
  find_refresh_token_by_hash, revoke_refresh_token_if_active, create_refresh_token,
}
use backend_foundation.Auth.Reuse.{FamilyRevoked, refresh-reuse}
use backend_foundation.Auth.Families.{FamiliesValid}
use backend_foundation.Auth.History.{
  Event, refreshes, perform, run, run-FamiliesValid, session_lifetime,
}
use backend_foundation.Auth.Sample.{toy, row, with_rows, db, at, at', pair'}

abbrev revoked_row : RefreshToken
revoked_row = record row { revoked_at = some 5 }

refresh-reuse_example :
    ((refresh toy (at 100) 20 none (with_rows (revoked_row ∷ []))).0 ≡ err refresh_token_revoked)
    × FamilyRevoked 30
        (with_rows (revoked_row ∷ []))
        (refresh toy (at 100) 20 none (with_rows (revoked_row ∷ []))).1
unfolding find_refresh_token_by_hash
refresh-reuse_example =
    refresh-reuse toy (at 100) 20 none (with_rows (revoked_row ∷ [])) revoked_row refl refl

abbrev old_row : RefreshToken
old_row = record row { family_session_expires_at = 90 }

pub only_row : {a : RefreshToken} → Memᴰ a (row ∷ []) → a ≡ row
only_row (Memᴰ.head e) = e
only_row (Memᴰ.tail m) = elim m [ ]

pub row-Valid : FamiliesValid (row ∷ [])
row-Valid = record {
  ids = λ a b m n e. cc (only_row m, only_row n);
  owner = λ a b m n e. cc (only_row m, only_row n);
  deadline = λ a b m n e. cc (only_row m, only_row n);
  single = λ f. ground arith;
}

abbrev history : List Event
history = (at 100, refreshes 20 none) ∷ []

run-FamiliesValid_example : FamiliesValid (run toy history db).refresh_tokens
run-FamiliesValid_example = run-FamiliesValid toy history db (row-new, tt) row-Valid
  where
    row-new : (a : RefreshToken) → Memᴰ a (row ∷ []) → (a.id ≢ 11) × (a.family_id ≢ 31)
    row-new a m = let e = only_row m in (ground arith, ground arith)

abbrev second_row : RefreshToken
second_row = refresh_row toy (at 100) 1 none (some 30) (some 2000)

session_lifetime_example : 200 ≤ 2000
unfolding run perform refresh find_refresh_token_by_hash Users.find_by_id
    revoke_refresh_token_if_active create_refresh_token refresh_row
session_lifetime_example =
    session_lifetime toy history db row (at' 200) 21 none second_row pair' (row-new, tt) row-Valid
      (Memᴰ.head refl) refl refl refl
  where
    row-new : (a : RefreshToken) → Memᴰ a (row ∷ []) → (a.id ≢ 11) × (a.family_id ≢ 31)
    row-new a m = let e = only_row m in (ground arith, ground arith)
