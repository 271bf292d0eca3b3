-- ===== src/Auth/RaceTests.antt =====
-- Interleaved runs of `refresh` of src/modules/auth/auth.service.ts.
use backend_foundation.Prelude.{
  ◌+◌, ◌≤◌, ◌≡◌, ◌≢◌, refl, none, some, [], ◌∷◌, Memᴰ, arith, count_where,
}
use backend_foundation.Auth.Data.{RefreshToken, Database, refresh_token_revoked}
use backend_foundation.Auth.Users
use backend_foundation.Auth.Refresh.{issue_rotated, check_stored}
use backend_foundation.Auth.Repository.{
  find_refresh_token_by_hash, revoke_refresh_token_if_active, create_refresh_token,
}
use backend_foundation.Auth.SessionLaws.{reuse_race_survivor, refused, winner_done}
use backend_foundation.Auth.Rows.{active_in, active_with_id}
use backend_foundation.Auth.Interleaving.{
  Phase, arrived, admitted, claiming, issuing, exchanged, Carries, Ended, failed, advance, System,
  IsFresh, Reach, begin, later, arrive, proceed,
}
use backend_foundation.Auth.Rotation.{rotated_row}
use backend_foundation.Auth.Exchange.{has_exchanged, exchange_once}
use backend_foundation.Auth.Sample.{toy, ada, row, with_rows, db, at, pair}

reuse_race_survivor_example :
    ((refused toy none row ada (at 100) (at 101) (at 102) db).0 ≡ failed refresh_token_revoked)
    × (active_in 30 (refused toy none row ada (at 100) (at 101) (at 102) db).1.refresh_tokens ≡ 0)
    × (active_in 30
          (winner_done toy none row ada (at 100) (at 101) (at 102) (at 103) db).1.refresh_tokens
        ≡ 1)
reuse_race_survivor_example =
    reuse_race_survivor toy none row ada (at 100) (at 101) (at 102) (at 103) db (Memᴰ.head refl)
      refl refl

-- One row and one request, neither with a value that is to be new.
row-IsFresh :
    (r : RefreshToken) (p : Phase)
    → r.id ≡ 10
    → r.family_id ≡ 30
    → Carries (λ t. t.id ≢ 11) p
    → Carries (λ t. t.family_id ≢ 31) p
    → Ended (λ x. x ≢ 11) p
    → IsFresh (at 100) (record { db = with_rows (r ∷ []); requests = p ∷ [] })
row-IsFresh r p e f h k l = record {
  id_unstored = (ground arith, tt);
  family_unstored = (ground arith, tt);
  id_unheld = (h, tt);
  family_unheld = (k, tt);
  id_unused = (l, tt);
}

not_new : (row.id ≢ 11) × (row.family_id ≢ 31)
not_new = (ground arith, ground arith)

abbrev claimed_row : RefreshToken
claimed_row = record row { revoked_at = some 100 }

-- One request that runs alone to its end, and another that arrives.
abbrev both : System
both = record {
  db = with_rows (rotated_row toy (at 100) none row ada ∷ claimed_row ∷ []);
  requests = arrived 20 ∷ exchanged 10 pair ∷ [];
}

-- The one request goes on.
goes_on :
    (r : RefreshToken) (p q : Phase) (db' : Database)
    → Reach toy db (record { db = with_rows (r ∷ []); requests = p ∷ [] })
    → IsFresh (at 100) (record { db = with_rows (r ∷ []); requests = p ∷ [] })
    → advance toy (at 100) none p (with_rows (r ∷ [])) ≡ (q, db')
    → Reach toy db (record { db = db'; requests = q ∷ [] })
goes_on r p q db' reach fresh e = later reach (proceed (at 100) none [] [] p fresh refl (rw e))

both-Reach : Reach toy db both
unfolding advance find_refresh_token_by_hash check_stored Users.find_by_id
    revoke_refresh_token_if_active issue_rotated create_refresh_token
both-Reach = later claimed_and_issued (arrive 20 refl)
  where
    held : (r : RefreshToken) (p : Phase) → Type 0
    held r p = Reach toy db (record { db = with_rows (r ∷ []); requests = p ∷ [] })

    read : held row (admitted row)
    read =
        goes_on row (arrived 20) _ _ (later begin (arrive 20 refl))
          (row-IsFresh row (arrived 20) refl refl tt tt tt) refl

    looked_up : held row (claiming row ada)
    looked_up =
        goes_on row (admitted row) _ _ read
          (row-IsFresh row (admitted row) refl refl not_new.0 not_new.1 tt) refl

    won : held claimed_row (issuing row ada)
    won =
        goes_on row (claiming row ada) _ _ looked_up
          (row-IsFresh row (claiming row ada) refl refl not_new.0 not_new.1 tt) refl

    claimed_and_issued : Reach toy db (record { db = both.db; requests = exchanged 10 pair ∷ [] })
    claimed_and_issued =
        goes_on claimed_row (issuing row ada) _ _ won
          (row-IsFresh claimed_row (issuing row ada) refl refl not_new.0 not_new.1 tt) refl

exchange_once_example :
    count_where (has_exchanged 10) both.requests + active_with_id 10 both.db.refresh_tokens ≤ 1
exchange_once_example = exchange_once toy db 10 both (omega arith) both-Reach
