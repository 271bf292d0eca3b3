-- ===== src/Auth/Exchange.antt =====
-- Finding #19 of auth.repository.ts: however requests interleave, a refresh token is exchanged for
-- a new pair at most once.
use native.Mathlib.Decide.{ℕ_discrete}
use backend_foundation.Prelude.{
  ℕ, ◌+◌, ◌≤◌, ◌==◌, ◌≡◌, ◌≢◌, refl, subst, Bool, false, List, [], ◌∷◌, ◌++◌, map, arith,
  count_where, count_where-append, All, if◌then◌else◌, Option, ap, Option-cases, inl, inr,
}
use backend_foundation.Auth.Data.{RefreshToken, DeviceContext, Database, Env, Crypto, User}
use backend_foundation.Auth.Repository.{
  find_refresh_token_by_id, revoke_where, create_refresh_token, revoke_refresh_token_if_active,
  revoke_refresh_token_family, revoke_all_refresh_tokens_for_user, revoke_refresh_token, revoke_row,
}
use backend_foundation.Auth.Refresh.{issue_rotated, issue_tokens_for_user}
use backend_foundation.Auth.Sessions.{revoke_session, revoke_all_sessions, revoke_if_needed}
use backend_foundation.Auth.Rows.{active_with_id, count-revoke_where, count-revoke_where-le}
use backend_foundation.Auth.Interleaving.{
  Phase, arrived, rejecting, admitted, claiming, issuing, exchanged, failed, advance, System,
  IsFresh, Carries, Ended, Step, arrive, proceed, sign_in, sign_out, sign_out_everywhere, Reach,
  begin, later,
}

-- The request has won the right to exchange the token with this id, or has used it.
abbrev pub has_won : ℕ → Phase → Bool
has_won x (issuing t u) = t.id == x
has_won x (exchanged y pair) = y == x
has_won x _ = false

-- Chances to exchange the token: an active row counts for one, and so does a winner.
abbrev pub chances : ℕ → System → ℕ
chances x s = active_with_id x s.db.refresh_tokens + count_where (has_won x) s.requests

active-unstored :
    (x : ℕ) (ts : List RefreshToken) → All (λ t. t.id ≢ x) ts → active_with_id x ts ≡ 0
active-unstored x [] h = refl
active-unstored x (t ∷ ts) h = ground (arith, h.0, active-unstored x ts h.1)

won-unheld :
    (x : ℕ) (ps : List Phase)
    → All (Carries (λ t. t.id ≢ x)) ps
    → All (Ended (λ y. y ≢ x)) ps
    → count_where (has_won x) ps ≡ 0
won-unheld x [] h k = refl
won-unheld x (issuing t u ∷ ps) h k = ground (arith, h.0, won-unheld x ps h.1 k.1)
won-unheld x (exchanged y pair ∷ ps) h k = ground (arith, k.0, won-unheld x ps h.1 k.1)
won-unheld x (arrived raw ∷ ps) h k = omega (arith, won-unheld x ps h.1 k.1)
won-unheld x (rejecting t e ∷ ps) h k = omega (arith, won-unheld x ps h.1 k.1)
won-unheld x (admitted t ∷ ps) h k = omega (arith, won-unheld x ps h.1 k.1)
won-unheld x (claiming t u ∷ ps) h k = omega (arith, won-unheld x ps h.1 k.1)
won-unheld x (failed e ∷ ps) h k = omega (arith, won-unheld x ps h.1 k.1)

abbrev weight : ℕ → Phase → ℕ
weight x p = if has_won x p then 1 else 0

abbrev new_row : ℕ → Env → ℕ
new_row x env = if env.fresh_id == x then 1 else 0

module _ (crypto : Crypto) (env : Env) (device : Option DeviceContext) (x : ℕ) where
  issue-chances :
      (t : RefreshToken) (u : User) (db : Database)
      → active_with_id x (advance crypto env device (issuing t u) db).1.refresh_tokens
          + weight x (advance crypto env device (issuing t u) db).0
        ≤ active_with_id x db.refresh_tokens + weight x (issuing t u) + new_row x env
  unfolding advance issue_rotated create_refresh_token
  issue-chances t u db = ground arith

  -- The winner takes the place of the active row.
  claim-chances :
      (t : RefreshToken) (u : User) (db : Database)
      → active_with_id x (advance crypto env device (claiming t u) db).1.refresh_tokens
          + weight x (advance crypto env device (claiming t u) db).0
        ≤ active_with_id x db.refresh_tokens
  unfolding advance revoke_refresh_token_if_active revoke_row
  claim-chances t u db = elim (ℕ_discrete t.id x) [
    | yes same ↦ subst Claim same (ground (arith, none_left))
    | no other ↦ ground (arith, no_more)
  ]
    where
      ts : List RefreshToken
      ts = db.refresh_tokens

      Claim : ℕ → Type 0
      Claim y =
          active_with_id y (advance crypto env device (claiming t u) db).1.refresh_tokens
            + weight y (advance crypto env device (claiming t u) db).0
          ≤ active_with_id y db.refresh_tokens

      none_left : active_with_id t.id (revoke_where (λ r. r.id == t.id) env.now ts) ≡ 0
      none_left = count-revoke_where (λ r. r.id == t.id) env.now ts (λ r. refl)

      no_more : active_with_id x (revoke_where (λ r. r.id == t.id) env.now ts) ≤ active_with_id x ts
      no_more = count-revoke_where-le (λ r. r.id == t.id) env.now (λ r. r.id == x) ts (λ r. refl)

  -- One step of one request gives no token a second chance: only a new row can add one.
  advance-chances :
      (p : Phase) (db : Database)
      → active_with_id x (advance crypto env device p db).1.refresh_tokens
          + weight x (advance crypto env device p db).0
        ≤ active_with_id x db.refresh_tokens + weight x p + new_row x env
  unfolding advance revoke_refresh_token_family revoke_row
  advance-chances (arrived raw) db = ground arith
  advance-chances (rejecting t e) db = omega (
    arith,
    count-revoke_where-le (λ r. r.family_id == t.family_id) env.now (λ r. r.id == x)
        db.refresh_tokens (λ r. refl),
  )
  advance-chances (admitted t) db = ground arith
  advance-chances (claiming t u) db = omega (arith, claim-chances t u db)
  advance-chances (issuing t u) db = issue-chances t u db
  advance-chances (exchanged y pair) db = ground arith
  advance-chances (failed e) db = ground arith

module _ (crypto : Crypto) (x : ℕ) where
  fresh-chances : (env : Env) (s : System) → IsFresh env s → env.fresh_id ≡ x → chances x s ≡ 0
  fresh-chances env s fresh e =
      subst (λ y. chances y s ≡ 0) e
        (omega (
          arith,
          active-unstored env.fresh_id s.db.refresh_tokens fresh.id_unstored,
          won-unheld env.fresh_id s.requests fresh.id_unheld fresh.id_unused,
        ))

  sign_in-chances :
      (env : Env) (device : Option DeviceContext) (u : User) (db : Database)
      → active_with_id x (issue_tokens_for_user crypto env u device db).1.refresh_tokens
        ≤ active_with_id x db.refresh_tokens + new_row x env
  unfolding issue_tokens_for_user create_refresh_token
  sign_in-chances env device u db = ground arith

  -- `update` by id of rows sets `revokedAt`, whatever it was.
  revoke_row-chances :
      (now id : ℕ) (ts : List RefreshToken)
      → active_with_id x (map (λ t. if t.id == id then revoke_row now t else t) ts)
        ≤ active_with_id x ts
  unfolding revoke_row
  revoke_row-chances now id [] = omega arith
  revoke_row-chances now id (t ∷ ts) = ground (arith, revoke_row-chances now id ts)

  sign_out-chances :
      (env : Env) (user_id id : ℕ) (db : Database)
      → active_with_id x (revoke_session env user_id id db).1.refresh_tokens
        ≤ active_with_id x db.refresh_tokens
  unfolding revoke_session revoke_refresh_token revoke_if_needed
  sign_out-chances env user_id id db = elim (Option-cases (find_refresh_token_by_id id db)) [
    | inl missing ↦ ground arith
    | inr (t, found) ↦ ground (arith, revoke_row-chances env.now t.id db.refresh_tokens)
  ]

  proceed-chances :
      (env : Env) (device : Option DeviceContext) (before after : List Phase) (p : Phase)
      (s : System)
      → IsFresh env s
      → s.requests ≡ before ++ p ∷ after
      → chances x s ≤ 1
      → active_with_id x (advance crypto env device p s.db).1.refresh_tokens
          + count_where (has_won x) (before ++ (advance crypto env device p s.db).0 ∷ after)
        ≤ 1
  proceed-chances env device before after p s fresh eq h = ground (
    arith,
    ap (count_where (has_won x)) eq,
    count_where-append (has_won x) before (p ∷ after),
    count_where-append (has_won x) before ((advance crypto env device p s.db).0 ∷ after),
    advance-chances crypto env device x p s.db,
    fresh-chances env s fresh,
  )

  -- Every step leaves each token at most one chance.
  pub Step-chances : {s s' : System} → Step crypto s s' → chances x s ≤ 1 → chances x s' ≤ 1
  unfolding revoke_all_sessions revoke_all_refresh_tokens_for_user revoke_row
  Step-chances {s} (arrive raw e) h = rw e (omega arith)
  Step-chances {s} (proceed env device before after p fresh eq e) h =
      rw e (proceed-chances env device before after p s fresh eq h)
  Step-chances {s} (sign_in env device u fresh e) h =
      rw e (ground (arith, sign_in-chances env device u s.db, fresh-chances env s fresh))
  Step-chances {s} (sign_out env user_id id e) h =
      rw e (omega (arith, sign_out-chances env user_id id s.db))
  Step-chances {s} (sign_out_everywhere env user_id e) h = rw e (
      omega (
        arith,
        count-revoke_where-le (λ r. r.user_id == user_id) env.now (λ r. r.id == x)
            s.db.refresh_tokens (λ r. refl),
      ))

  Reach-chances :
      {db : Database} {s : System}
      → active_with_id x db.refresh_tokens ≤ 1
      → Reach crypto db s
      → chances x s ≤ 1
  Reach-chances h begin = omega arith
  Reach-chances h (later r st) = Step-chances st (Reach-chances h r)

-- The request has been answered with a pair for the token with this id.
abbrev pub has_exchanged : ℕ → Phase → Bool
has_exchanged x (exchanged y pair) = y == x
has_exchanged x _ = false

exchanged-le-won :
    (x : ℕ) (ps : List Phase) → count_where (has_exchanged x) ps ≤ count_where (has_won x) ps
exchanged-le-won x [] = omega arith
exchanged-le-won x (p ∷ ps) = ground (arith, exchanged-le-won x ps)

-- Whatever requests arrive and however their steps, logins, logouts and revocations interleave: of
-- all requests so far, at most one has been answered with a new pair for the token with a given id,
-- and then that token is no longer active.
pub exchange_once :
    (crypto : Crypto) (start : Database) (x : ℕ) (s : System)
    → active_with_id x start.refresh_tokens ≤ 1
    → Reach crypto start s
    → count_where (has_exchanged x) s.requests + active_with_id x s.db.refresh_tokens ≤ 1
exchange_once crypto start x s h r =
    omega (arith, exchanged-le-won x s.requests, Reach-chances crypto x h r)
