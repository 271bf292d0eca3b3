-- ===== src/Auth/Repository.antt =====
-- src/modules/auth/auth.repository.ts, src/shared/utils/token-blacklist.ts: each method is one
-- statement on the tables.
use text.Mathlib.Text.{◌==◌ as str_eq}
use backend_foundation.Prelude.{
  ℕ, String, Bool, false, not, ◌&&◌, ltb, ◌==◌, Option, none, some, List, [], ◌∷◌, map, find, keep,
  count_where, is_some, if◌then◌else◌,
}
use backend_foundation.Auth.Data.{
  RefreshToken, OneTimeToken, BlacklistedToken, Database, record_not_found, unique_violation,
}
use backend_foundation.Auth.Monad.{M, ok, modify_unless}

-- `revokedAt` is null.
abbrev pub is_active : RefreshToken → Bool
is_active t = not (is_some t.revoked_at)

unfoldable pub revoke_row : ℕ → RefreshToken → RefreshToken
revoke_row now t = record t { revoked_at = some now }

-- `updateMany` with `revokedAt: null` and one more condition.
unfoldable pub revoke_where : (RefreshToken → Bool) → ℕ → List RefreshToken → List RefreshToken
unfolding revoke_row
revoke_where p now = map (λ t. if p t && is_active t then revoke_row now t else t)

unfoldable pub create_refresh_token : RefreshToken → M Database (Unit {0})
create_refresh_token row db =
    modify_unless (is_some (find (λ t. t.token_hash == row.token_hash) db.refresh_tokens))
      unique_violation (λ d. record d { refresh_tokens = row ∷ d.refresh_tokens }) db

unfoldable pub find_refresh_token_by_hash : ℕ → Database → Option RefreshToken
find_refresh_token_by_hash hash db = find (λ t. t.token_hash == hash) db.refresh_tokens

unfoldable pub find_refresh_token_by_id : ℕ → Database → Option RefreshToken
find_refresh_token_by_id id db = find (λ t. t.id == id) db.refresh_tokens

-- `orderBy: { createdAt: 'desc' }`.
unfoldable pub insert_newest_first : RefreshToken → List RefreshToken → List RefreshToken
insert_newest_first t [] = t ∷ []
insert_newest_first t (r ∷ rs) =
    if ltb t.created_at r.created_at then r ∷ insert_newest_first t rs else t ∷ r ∷ rs

unfoldable pub newest_first : List RefreshToken → List RefreshToken
unfolding insert_newest_first
newest_first [] = []
newest_first (t ∷ ts) = insert_newest_first t (newest_first ts)

unfoldable pub find_active_sessions_for_user : ℕ → ℕ → Database → List RefreshToken
unfolding newest_first
find_active_sessions_for_user now user_id db =
    newest_first
      (keep (λ t. t.user_id == user_id && is_active t && ltb now t.expires_at) db.refresh_tokens)

unfoldable pub count_refresh_tokens_for_user : ℕ → Database → ℕ
count_refresh_tokens_for_user user_id db = count_where (λ t. t.user_id == user_id) db.refresh_tokens

abbrev pub same_text : Option String → String → Bool
same_text none s = false
same_text (some r) s = str_eq r s

unfoldable pub has_known_device : ℕ → String → String → Database → Bool
has_known_device user_id user_agent ip_address db = is_some (
    find
      (λ t.
        t.user_id == user_id
        && same_text t.user_agent user_agent
        && same_text t.ip_address ip_address)
      db.refresh_tokens)

-- `update` by id, whatever `revokedAt` was; throws when no row has the id.
unfoldable pub revoke_refresh_token : ℕ → ℕ → M Database (Unit {0})
unfolding revoke_row
revoke_refresh_token now id db =
    modify_unless (not (is_some (find (λ t. t.id == id) db.refresh_tokens))) record_not_found
      (λ d. record d {
        refresh_tokens = map (λ t. if t.id == id then revoke_row now t else t) d.refresh_tokens;
      })
      db

-- `updateMany({ id, revokedAt: null })`, and whether a row was changed.
unfoldable pub revoke_refresh_token_if_active : ℕ → ℕ → M Database Bool
unfolding revoke_where
revoke_refresh_token_if_active now id db = (
  ok (ltb 0 (count_where (λ t. t.id == id && is_active t) db.refresh_tokens)),
  record db { refresh_tokens = revoke_where (λ t. t.id == id) now db.refresh_tokens },
)

unfoldable pub revoke_all_refresh_tokens_for_user : ℕ → ℕ → Database → Database
unfolding revoke_where
revoke_all_refresh_tokens_for_user now user_id db = record db {
  refresh_tokens = revoke_where (λ t. t.user_id == user_id) now db.refresh_tokens;
}

unfoldable pub revoke_refresh_token_family : ℕ → ℕ → Database → Database
unfolding revoke_where
revoke_refresh_token_family now family_id db = record db {
  refresh_tokens = revoke_where (λ t. t.family_id == family_id) now db.refresh_tokens;
}

unfoldable pub create_email_verification_token : OneTimeToken → M Database (Unit {0})
create_email_verification_token row db =
    modify_unless (is_some (find (λ t. t.token_hash == row.token_hash) db.email_tokens))
      unique_violation (λ d. record d { email_tokens = row ∷ d.email_tokens }) db

unfoldable pub find_email_verification_token_by_hash : ℕ → Database → Option OneTimeToken
find_email_verification_token_by_hash hash db = find (λ t. t.token_hash == hash) db.email_tokens

-- `delete` throws when no row has the id.
unfoldable pub delete_email_verification_token : ℕ → M Database (Unit {0})
delete_email_verification_token id db =
    modify_unless (not (is_some (find (λ t. t.id == id) db.email_tokens))) record_not_found
      (λ d. record d { email_tokens = keep (λ t. not (t.id == id)) d.email_tokens }) db

unfoldable pub create_password_reset_token : OneTimeToken → M Database (Unit {0})
create_password_reset_token row db =
    modify_unless (is_some (find (λ t. t.token_hash == row.token_hash) db.reset_tokens))
      unique_violation (λ d. record d { reset_tokens = row ∷ d.reset_tokens }) db

unfoldable pub find_password_reset_token_by_hash : ℕ → Database → Option OneTimeToken
find_password_reset_token_by_hash hash db = find (λ t. t.token_hash == hash) db.reset_tokens

unfoldable pub delete_password_reset_token : ℕ → M Database (Unit {0})
delete_password_reset_token id db =
    modify_unless (not (is_some (find (λ t. t.id == id) db.reset_tokens))) record_not_found
      (λ d. record d { reset_tokens = keep (λ t. not (t.id == id)) d.reset_tokens }) db

unfoldable pub delete_all_password_reset_tokens_for_user : ℕ → Database → Database
delete_all_password_reset_tokens_for_user user_id db = record db {
  reset_tokens = keep (λ t. not (t.user_id == user_id)) db.reset_tokens;
}

unfoldable pub is_blacklisted : ℕ → Database → Bool
is_blacklisted jti db = is_some (find (λ t. t.jti == jti) db.blacklist)

unfoldable pub add_to_blacklist : BlacklistedToken → M Database (Unit {0})
unfolding is_blacklisted
add_to_blacklist row db =
    modify_unless (is_blacklisted row.jti db) unique_violation
      (λ d. record d { blacklist = row ∷ d.blacklist }) db
