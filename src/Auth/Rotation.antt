-- ===== src/Auth/Rotation.antt =====
-- `AuthService.refresh` by cases: what it answers and what it leaves in the database.
use backend_foundation.Prelude.{
  ℕ, ◌==◌, ◌≡◌, ◌≤◌, refl, ◌∙◌, ◌⊎◌, inl, inr, true, ◌&&◌, Option, none, some, List, ◌∷◌, Memᴰ,
  arith, find, find_sound, count_where_pos, Option-cases,
}
use backend_foundation.Auth.Data.{
  User, RefreshToken, DeviceContext, Database, Env, Crypto, access, refresh_token_invalid,
  refresh_token_revoked, refresh_token_expired, session_too_old, unique_violation,
}
use backend_foundation.Auth.Monad.{Result, ok, err}
use backend_foundation.Auth.Users
use backend_foundation.Auth.Repository.{
  is_active, revoke_where, find_refresh_token_by_hash, create_refresh_token,
  revoke_refresh_token_if_active, revoke_refresh_token_family,
}
use backend_foundation.Auth.Refresh.{
  TokenPair, Verdict, reused, expired, too_old, usable, check_stored, refresh_row, issue_rotated,
  rotate, refresh_stored, refresh,
}

abbrev pub with_tokens : Database → List RefreshToken → Database
with_tokens db ts = record db { refresh_tokens = ts }

abbrev pub claimed : ℕ → ℕ → Database → List RefreshToken
claimed now id db = revoke_where (λ t. t.id == id) now db.refresh_tokens

abbrev pub family_revoked : ℕ → ℕ → Database → Database
family_revoked now f db =
    with_tokens db (revoke_where (λ t. t.family_id == f) now db.refresh_tokens)

pub found-mem :
    (hash : ℕ) (db : Database) {t : RefreshToken}
    → find_refresh_token_by_hash hash db ≡ some t
    → Memᴰ t db.refresh_tokens × (t.token_hash ≡ hash)
unfolding find_refresh_token_by_hash
found-mem hash db {t} e =
    let (m, h) = find_sound (λ r. r.token_hash == hash) db.refresh_tokens e in (m, ground arith)

pub usable-guards :
    (now : ℕ) (t : RefreshToken)
    → check_stored now t ≡ usable
    → (is_active t ≡ true) × (now ≤ t.expires_at) × (now ≤ t.family_session_expires_at)
unfolding check_stored
usable-guards now t h = (ground arith, ground arith, ground arith)

module _ (crypto : Crypto) (env : Env) (device : Option DeviceContext) where
  abbrev pub rotated_row : RefreshToken → User → RefreshToken
  rotated_row t u =
      refresh_row crypto env u.id device (some t.family_id) (some t.family_session_expires_at)

  abbrev pub new_pair : User → TokenPair
  new_pair u = record {
    access_token = crypto.sign (access u.id u.email u.role env.fresh_jti) env.now;
    refresh_token = env.fresh_token;
  }

  -- The sequential claim of an active row of the table always succeeds.
  claim-active :
      (t : RefreshToken) (db : Database)
      → Memᴰ t db.refresh_tokens
      → is_active t ≡ true
      → revoke_refresh_token_if_active env.now t.id db
        ≡ (ok true, with_tokens db (claimed env.now t.id db))
  unfolding revoke_refresh_token_if_active
  claim-active t db m a =
      ground (
        arith,
        count_where_pos (λ r. r.id == t.id && is_active r) db.refresh_tokens m (ground arith),
      )

  rotate-ok :
      (t : RefreshToken) (u : User) (db : Database)
      → Memᴰ t db.refresh_tokens
      → is_active t ≡ true
      → Users.find_by_id t.user_id db ≡ some u
      → rotate crypto env t device db
        ≡ issue_rotated crypto env t device u (with_tokens db (claimed env.now t.id db))
  unfolding rotate
  rotate-ok t u db m a e = rw (e, rotate) (rw (claim-active t db m a, rotate) refl)

  issue-cases :
      (t : RefreshToken) (u : User) (db : Database)
      → (issue_rotated crypto env t device u db ≡ (err unique_violation, db))
        ⊎ (issue_rotated crypto env t device u db
            ≡ (ok (new_pair u), with_tokens db (rotated_row t u ∷ db.refresh_tokens)))
  unfolding issue_rotated create_refresh_token
  issue-cases t u db = ground arith

  issue-ok :
      (t : RefreshToken) (u : User) (db : Database)
      → find (λ r. r.token_hash == crypto.hash_secure_token env.fresh_token) db.refresh_tokens
        ≡ none
      → issue_rotated crypto env t device u db
        ≡ (ok (new_pair u), with_tokens db (rotated_row t u ∷ db.refresh_tokens))
  unfolding issue_rotated create_refresh_token
  issue-ok t u db h = ground arith

  -- A token that passes the guards and whose user is there is exchanged.
  pub refresh-usable :
      (raw : ℕ) (db : Database) (t : RefreshToken) (u : User)
      → find_refresh_token_by_hash (crypto.hash_secure_token raw) db ≡ some t
      → check_stored env.now t ≡ usable
      → Users.find_by_id t.user_id db ≡ some u
      → find
          (λ r. r.token_hash == crypto.hash_secure_token env.fresh_token)
          (claimed env.now t.id db)
        ≡ none
      → refresh crypto env raw device db
        ≡ (ok (new_pair u), with_tokens db (rotated_row t u ∷ claimed env.now t.id db))
  unfolding refresh
  refresh-usable raw db t u e c f new =
      rw (e, refresh)
        (rw (c, refresh_stored)
          (rotate-ok t u db (found-mem _ db e).0 (usable-guards env.now t c).0 f
            ∙ issue-ok t u (with_tokens db (claimed env.now t.id db)) new))

  -- The cases of `refresh`, for any property of its answer and database.
  module _ {ℓ} (P : Result TokenPair × Database → Type ℓ) (raw : ℕ) (db : Database) where
    abbrev Stored : RefreshToken → Type 0
    Stored t = find_refresh_token_by_hash (crypto.hash_secure_token raw) db ≡ some t

    abbrev pub OnReuse : Type ℓ
    OnReuse =
        (t : RefreshToken)
        → Stored t
        → check_stored env.now t ≡ reused
        → P (err refresh_token_revoked, family_revoked env.now t.family_id db)

    abbrev pub OnTooOld : Type ℓ
    OnTooOld =
        (t : RefreshToken)
        → Stored t
        → check_stored env.now t ≡ too_old
        → P (err session_too_old, family_revoked env.now t.family_id db)

    abbrev pub OnClash : Type ℓ
    OnClash =
        (t : RefreshToken) → P (err unique_violation, with_tokens db (claimed env.now t.id db))

    abbrev pub OnRotated : Type ℓ
    OnRotated =
        (t : RefreshToken) (u : User)
        → Stored t
        → check_stored env.now t ≡ usable
        → Users.find_by_id t.user_id db ≡ some u
        → P (ok (new_pair u), with_tokens db (rotated_row t u ∷ claimed env.now t.id db))

    rotated-case :
        (t : RefreshToken) (u : User)
        → Stored t
        → check_stored env.now t ≡ usable
        → Users.find_by_id t.user_id db ≡ some u
        → OnClash
        → OnRotated
        → P (rotate crypto env t device db)
    rotated-case t u e c f clash rotated =
        rw (rotate-ok t u db (found-mem _ db e).0 (usable-guards env.now t c).0 f)
          (elim (issue-cases t u (with_tokens db (claimed env.now t.id db))) [
            | inl q ↦ rw q (clash t)
            | inr q ↦ rw q (rotated t u e c f)
          ])

    stored-case :
        (t : RefreshToken)
        → Stored t
        → P (err refresh_token_invalid, db)
        → OnReuse
        → P (err refresh_token_expired, db)
        → OnTooOld
        → OnClash
        → OnRotated
        → P (refresh_stored crypto env t device db)
    unfolding refresh_stored revoke_refresh_token_family
    stored-case t e invalid on_reuse on_expired on_too_old clash rotated =
        go (check_stored env.now t) refl
      where
        go : (v : Verdict) → check_stored env.now t ≡ v → P (refresh_stored crypto env t device db)
        go reused c = rw (c, refresh_stored) (on_reuse t e c)
        go expired c = rw (c, refresh_stored) on_expired
        go too_old c = rw (c, refresh_stored) (on_too_old t e c)
        go usable c =
            rw (c, refresh_stored)
              (elim (Option-cases (Users.find_by_id t.user_id db)) [
                | inl f ↦ rw (f, rotate) invalid
                | inr (u, f) ↦ rotated-case t u e c f clash rotated
              ])

    pub refresh_cases :
        P (err refresh_token_invalid, db)
        → OnReuse
        → P (err refresh_token_expired, db)
        → OnTooOld
        → OnClash
        → OnRotated
        → P (refresh crypto env raw device db)
    unfolding refresh
    refresh_cases invalid on_reuse on_expired on_too_old clash rotated =
        elim (Option-cases (find_refresh_token_by_hash (crypto.hash_secure_token raw) db)) [
          | inl e ↦ rw (e, refresh) invalid
          | inr (t, e) ↦
              rw (e, refresh) (stored-case t e invalid on_reuse on_expired on_too_old clash rotated)
        ]
