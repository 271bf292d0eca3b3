-- ===== src/Auth/SessionLaws.antt =====
-- Revoking one session, and the race that reuse detection loses.
use backend_foundation.Prelude.{
  ℕ, ◌+◌, ◌==◌, ◌≡◌, ◌≢◌, refl, sym, ap, ◌∙◌, inl, inr, Bool, true, ◌&&◌, Option, none, some, List,
  ◌∷◌, [], map, Memᴰ, arith, count_where_pos, find, find_sound, Option-cases, Bool-cases, All,
  All-intro, if◌then◌else◌, ==_iff,
}
use backend_foundation.Auth.Data.{
  User, RefreshToken, DeviceContext, Database, Env, Crypto, AuthError, session_not_found,
  refresh_token_revoked,
}
use backend_foundation.Auth.Monad.{err}
use backend_foundation.Auth.Repository.{
  is_active, revoke_row, revoke_where, revoke_refresh_token, find_refresh_token_by_id,
  revoke_refresh_token_if_active, revoke_refresh_token_family, create_refresh_token,
}
use backend_foundation.Auth.Refresh.{issue_rotated}
use backend_foundation.Auth.Sessions.{revoke_session, revoke_if_needed}
use backend_foundation.Auth.Families.{FamiliesValid}
use backend_foundation.Auth.Rows.{active_in, count-revoke_where}
use backend_foundation.Auth.RecoveryLaws.{active_of}
use backend_foundation.Auth.Rotation.{with_tokens, claimed, family_revoked}
use backend_foundation.Auth.Interleaving.{Phase, claiming, rejecting, issuing, failed, advance}

-- Revoking the rows with one id leaves the active rows of a user alone who has none of them.
revoked_row-others :
    (now id other : ℕ) (ts : List RefreshToken)
    → All (λ r. r.id ≡ id → r.user_id ≢ other) ts
    → active_of other (map (λ t. if t.id == id then revoke_row now t else t) ts)
      ≡ active_of other ts
unfolding revoke_row
revoked_row-others now id other [] h = refl
revoked_row-others now id other (t ∷ ts) h =
    ground (arith, h.0, revoked_row-others now id other ts h.1)

-- Whatever session id a user names, no other user loses an active row.
pub revoke_session_own :
    (env : Env) (user_id session_id other : ℕ) (db : Database)
    → FamiliesValid db.refresh_tokens
    → other ≢ user_id
    → active_of other (revoke_session env user_id session_id db).1.refresh_tokens
      ≡ active_of other db.refresh_tokens
unfolding revoke_session revoke_if_needed revoke_refresh_token find_refresh_token_by_id
revoke_session_own env user_id session_id other db v ne =
    elim (Option-cases (find_refresh_token_by_id session_id db)) [
      | inl e ↦ ground arith
      | inr (t, e) ↦ elim (Bool-cases (t.user_id == user_id)) [
        | inl own ↦ ground (
          arith,
          revoked_row-others env.now t.id other db.refresh_tokens (
              All-intro _ db.refresh_tokens (λ r m same_id same_user. ne (
                sym same_user
                ∙ ap (λ (x : RefreshToken). x.user_id)
                    (v.ids r t m (find_sound (λ x. x.id == session_id) db.refresh_tokens e).0
                      same_id)
                ∙ (==_iff t.user_id user_id).0 own))),
        )
        | inr foreign ↦ ground arith
      ]
    ]

-- A session that is another user's is answered like one that does not exist: with 404, and nothing
-- is changed.
pub revoke_session_foreign :
    (env : Env) (user_id session_id : ℕ) (db : Database) (t : RefreshToken)
    → find_refresh_token_by_id session_id db ≡ some t
    → t.user_id ≢ user_id
    → revoke_session env user_id session_id db ≡ (err session_not_found, db)
unfolding revoke_session
revoke_session_foreign env user_id session_id db t e ne = ground arith

find-revoke_where :
    (p : RefreshToken → Bool) (now hash : ℕ) (ts : List RefreshToken)
    → find (λ r. r.token_hash == hash) ts ≡ none
    → find (λ r. r.token_hash == hash) (revoke_where p now ts) ≡ none
unfolding revoke_where revoke_row
find-revoke_where p now hash [] e = refl
find-revoke_where p now hash (t ∷ ts) e = ground (arith, find-revoke_where p now hash ts)

-- The states of the race: one request has claimed the token, another has lost the claim, the loser
-- has been refused, and the winner has created its row.
module _ (crypto : Crypto) (device : Option DeviceContext) (t : RefreshToken) (u : User) where
  abbrev pub won_claim : Env → Database → Phase × Database
  won_claim one db = advance crypto one device (claiming t u) db

  abbrev pub lost_claim : Env → Env → Database → Phase × Database
  lost_claim one two db = advance crypto two device (claiming t u) (won_claim one db).1

  abbrev pub refused : Env → Env → Env → Database → Phase × Database
  refused one two three db =
      advance crypto three device (lost_claim one two db).0 (lost_claim one two db).1

  abbrev pub winner_done : Env → Env → Env → Env → Database → Phase × Database
  winner_done one two three four db =
      advance crypto four device (won_claim one db).0 (refused one two three db).1

  won-issuing :
      (one : Env) (db : Database)
      → Memᴰ t db.refresh_tokens
      → is_active t ≡ true
      → won_claim one db ≡ (issuing t u, with_tokens db (claimed one.now t.id db))
  unfolding advance revoke_refresh_token_if_active
  won-issuing one db m a =
      ground (
        arith,
        count_where_pos (λ r. r.id == t.id && is_active r) db.refresh_tokens m (ground arith),
      )

  lost-rejecting :
      (one two : Env) (db : Database)
      → advance crypto two device (claiming t u) (with_tokens db (claimed one.now t.id db)) ≡ (
        rejecting t refresh_token_revoked,
        with_tokens db (revoke_where (λ r. r.id == t.id) two.now (claimed one.now t.id db)),
      )
  unfolding advance revoke_refresh_token_if_active revoke_row
  lost-rejecting one two db =
      ground (arith, count-revoke_where (λ r. r.id == t.id) one.now db.refresh_tokens (λ r. refl))

  winner-row :
      (four : Env) (db : Database)
      → find (λ r. r.token_hash == crypto.hash_secure_token four.fresh_token) db.refresh_tokens
        ≡ none
      → active_in t.family_id (advance crypto four device (issuing t u) db).1.refresh_tokens
        ≡ 1 + active_in t.family_id db.refresh_tokens
  unfolding advance issue_rotated create_refresh_token
  winner-row four db e = ground arith

  refused-step :
      (three : Env) (e : AuthError) (db : Database)
      → advance crypto three device (rejecting t e) db
        ≡ (failed e, family_revoked three.now t.family_id db)
  unfolding advance revoke_refresh_token_family revoke_row
  refused-step three e db = refl

  -- Two requests have passed the guards of `refresh` with the same active token. One claims it; the
  -- other finds it claimed, revokes the family and is refused. Then the first creates its row, whose
  -- hash is new: the family that was revoked has an active token again, for whoever sent the first
  -- request.
  pub reuse_race_survivor :
      (one two three four : Env) (db : Database)
      → Memᴰ t db.refresh_tokens
      → is_active t ≡ true
      → find (λ r. r.token_hash == crypto.hash_secure_token four.fresh_token) db.refresh_tokens
        ≡ none
      → ((refused one two three db).0 ≡ failed refresh_token_revoked)
        × (active_in t.family_id (refused one two three db).1.refresh_tokens ≡ 0)
        × (active_in t.family_id (winner_done one two three four db).1.refresh_tokens ≡ 1)
  unfolding revoke_row
  reuse_race_survivor one two three four db m a new = rw (won-issuing one db m a) (
      rw (lost-rejecting one two db) (
        rw (refused-step three refresh_token_revoked lost_db) (
          refl,
          dead,
          omega (
            arith,
            dead,
            winner-row four (family_revoked three.now t.family_id lost_db) (
                find-revoke_where _ _ _ _
                  (find-revoke_where _ _ _ _ (find-revoke_where _ _ _ _ new))),
          ),
        )))
    where
      lost_db : Database
      lost_db = with_tokens db (revoke_where (λ r. r.id == t.id) two.now (claimed one.now t.id db))

      dead : active_in t.family_id (family_revoked three.now t.family_id lost_db).refresh_tokens ≡ 0
      dead =
          count-revoke_where (λ r. r.family_id == t.family_id) three.now lost_db.refresh_tokens
            (λ r. refl)
