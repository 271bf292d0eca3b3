-- ===== src/Auth/Mfa.antt =====
-- src/modules/auth/mfa.service.ts and mfa.repository.ts: setting up a second factor, and checking a
-- code against the authenticator's secret or the unused recovery codes.
use backend_foundation.Prelude.{
  ℕ, ◌==◌, Bool, true, false, not, ◌&&◌, String, Option, none, some, List, [], ◌∷◌, ◌++◌, map, find,
  keep, is_some, if◌then◌else◌,
}
use backend_foundation.Auth.Data.{
  User, RecoveryCode, Database, Env, Crypto, mfa_setup_missing, mfa_code_invalid, record_not_found,
}
use backend_foundation.Auth.Monad.{M, pure, throw, ◌>>=◌, ◌>>◌, gets, modify, modify_unless}
use backend_foundation.Auth.Users
use backend_foundation.Auth.Recovery.{run_in_transaction}

unfoldable pub find_unused_recovery_codes : ℕ → Database → List RecoveryCode
find_unused_recovery_codes user_id db =
    keep (λ c. c.user_id == user_id && not (is_some c.used_at)) db.recovery_codes

-- `update` by id, whatever `usedAt` was.
unfoldable pub mark_recovery_code_used : ℕ → ℕ → M Database (Unit {0})
mark_recovery_code_used now id db =
    modify_unless (not (is_some (find (λ c. c.id == id) db.recovery_codes))) record_not_found
      (λ d. record d {
        recovery_codes =
            map (λ c. if c.id == id then record c { used_at = some now } else c) d.recovery_codes;
      })
      db

abbrev pub drop_codes : ℕ → Database → Database
drop_codes user_id db = record db {
  recovery_codes = keep (λ c. not (c.user_id == user_id)) db.recovery_codes;
}

-- The rows that `createMany` makes have ids drawn beside the hashes.
abbrev pub code_row : ℕ → ℕ × ℕ → RecoveryCode
code_row user_id (id, hash) = record {
  id = id;
  user_id = user_id;
  code_hash = hash;
  used_at = none;
}

unfoldable pub replace_recovery_codes : ℕ → List (ℕ × ℕ) → Database → Database
replace_recovery_codes user_id hashes db = record db {
  recovery_codes =
      map (code_row user_id) hashes ++ keep (λ c. not (c.user_id == user_id)) db.recovery_codes;
}

unfoldable pub disable_mfa : ℕ → M Database (Unit {0})
unfolding run_in_transaction
disable_mfa user_id = run_in_transaction (do
  Users.update user_id (λ u. record u { mfa_enabled = false; mfa_secret = none })
  modify (drop_codes user_id))

module _ (crypto : Crypto) (env : Env) where
  -- The loop of `tryConsumeRecoveryCode`.
  unfoldable pub consume_first : String → List RecoveryCode → M Database Bool
  consume_first code [] = pure false
  consume_first code (entry ∷ rest) =
      let later = consume_first code rest in
      if crypto.compare_password code entry.code_hash
      then (do mark_recovery_code_used env.now entry.id; pure true)
      else later

  unfoldable pub try_consume_recovery_code : ℕ → String → M Database Bool
  unfolding consume_first
  try_consume_recovery_code user_id code = do
    unused ← gets (find_unused_recovery_codes user_id)
    consume_first code unused

  unfoldable pub verify_with_secret : User → String → Option ℕ → M Database Bool
  unfolding try_consume_recovery_code
  verify_with_secret u code none = pure false
  verify_with_secret u code (some secret) =
      if crypto.check_totp code (crypto.decrypt secret) env.now
      then pure true
      else try_consume_recovery_code u.id code

  unfoldable pub verify_code : User → String → M Database Bool
  unfolding verify_with_secret
  verify_code u code = verify_with_secret u code u.mfa_secret

  unfoldable pub begin_setup : User → ℕ → M Database ℕ
  begin_setup u secret = do
    Users.update u.id (λ v. record v { mfa_secret = some (crypto.encrypt secret) })
    pure secret

  unfoldable pub confirm_with_secret :
      User → String → List (ℕ × String) → Option ℕ → M Database (List String)
  confirm_with_secret u code fresh_codes none = throw mfa_setup_missing
  confirm_with_secret u code fresh_codes (some secret) =
      if crypto.check_totp code (crypto.decrypt secret) env.now
      then (do
        modify
            (replace_recovery_codes u.id (map (λ c. (c.0, crypto.hash_password c.1)) fresh_codes))
        Users.update u.id (λ v. record v { mfa_enabled = true })
        pure (map (λ c. c.1) fresh_codes))
      else throw mfa_code_invalid

  unfoldable pub confirm_setup : User → String → List (ℕ × String) → M Database (List String)
  unfolding confirm_with_secret
  confirm_setup u code fresh_codes = confirm_with_secret u code fresh_codes u.mfa_secret
