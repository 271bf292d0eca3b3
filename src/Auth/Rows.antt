-- ===== src/Auth/Rows.antt =====
-- The table of refresh tokens under the updates of auth.repository.ts: what `revoke_where` does to
-- each row, and how many active rows a family has.
use backend_foundation.Prelude.{
  ℕ, ◌+◌, ◌≤◌, ◌==◌, ◌≡◌, refl, Bool, true, false, ◌&&◌, List, [], ◌∷◌, arith, count_where, All,
  if◌then◌else◌,
}
use backend_foundation.Auth.Data.{RefreshToken}
use backend_foundation.Auth.Repository.{is_active, revoke_row, revoke_where}

abbrev pub active_in : ℕ → List RefreshToken → ℕ
active_in f = count_where (λ t. t.family_id == f && is_active t)

abbrev pub active_with_id : ℕ → List RefreshToken → ℕ
active_with_id x = count_where (λ t. t.id == x && is_active t)

-- What no update of a row changes.
pub record SameSession (s t : RefreshToken) : Type 0 where
  pub id : t.id ≡ s.id
  pub token_hash : t.token_hash ≡ s.token_hash
  pub user_id : t.user_id ≡ s.user_id
  pub family_id : t.family_id ≡ s.family_id
  pub deadline : t.family_session_expires_at ≡ s.family_session_expires_at
  pub stays_revoked : is_active t ≡ true → is_active s ≡ true

module _ (p : RefreshToken → Bool) (now : ℕ) where
  pub revoke-SameSession :
      (t : RefreshToken) → SameSession t (if p t && is_active t then revoke_row now t else t)
  unfolding revoke_row
  revoke-SameSession t = ground arith

  -- A row that passes the test is not active afterwards, if revoking does not change the test.
  pub count-revoke_where :
      (ts : List RefreshToken)
      → ((t : RefreshToken) → p (revoke_row now t) ≡ p t)
      → count_where (λ t. p t && is_active t) (revoke_where p now ts) ≡ 0
  unfolding revoke_where revoke_row
  count-revoke_where [] h = refl
  count-revoke_where (t ∷ ts) h = ground (arith, h t, count-revoke_where ts h)

  -- No other count of active rows grows.
  pub count-revoke_where-le :
      (q : RefreshToken → Bool) (ts : List RefreshToken)
      → ((t : RefreshToken) → q (revoke_row now t) ≡ q t)
      → count_where (λ t. q t && is_active t) (revoke_where p now ts)
        ≤ count_where (λ t. q t && is_active t) ts
  unfolding revoke_where revoke_row
  count-revoke_where-le q [] h = omega arith
  count-revoke_where-le q (t ∷ ts) h = ground (arith, h t, count-revoke_where-le q ts h)

  -- If the test implies another one, that other count falls by all that passed the test.
  pub count-revoke_where_sub :
      (q : RefreshToken → Bool) (ts : List RefreshToken)
      → ((t : RefreshToken) → q (revoke_row now t) ≡ q t)
      → All (λ t. p t ≡ true → q t ≡ true) ts
      → count_where (λ t. q t && is_active t) (revoke_where p now ts)
          + count_where (λ t. p t && is_active t) ts
        ≡ count_where (λ t. q t && is_active t) ts
  unfolding revoke_where revoke_row
  count-revoke_where_sub q [] h all = refl
  count-revoke_where_sub q (t ∷ ts) h all =
      ground (arith, h t, all.0, count-revoke_where_sub q ts h all.1)

  -- If the tests exclude one another, the other count stays.
  pub count-revoke_where_other :
      (q : RefreshToken → Bool) (ts : List RefreshToken)
      → All (λ t. q t ≡ true → p t ≡ false) ts
      → count_where (λ t. q t && is_active t) (revoke_where p now ts)
        ≡ count_where (λ t. q t && is_active t) ts
  unfolding revoke_where revoke_row
  count-revoke_where_other q [] all = refl
  count-revoke_where_other q (t ∷ ts) all =
      ground (arith, all.0, count-revoke_where_other q ts all.1)
