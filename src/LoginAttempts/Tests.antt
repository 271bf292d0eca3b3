-- ===== src/LoginAttempts/Tests.antt =====
-- Runs of src/shared/security/login-attempt-tracker.ts.
use backend_foundation.Prelude.{ℕ, ◌≡◌, refl, arith, none, some, [], ◌∷◌}
use backend_foundation.UserAgent.{codes}
use backend_foundation.LoginAttempts.Defs.{
  Identifier, address, Redis, Tracker, normalize, check_account_lock, record_failed_attempt,
}
use backend_foundation.LoginAttempts.Memory.{failures}
use backend_foundation.LoginAttempts.Locking.{five_failures_lock}

abbrev empty : Tracker ℕ
empty = record { memory_attempts = λ k. none; memory_locks = λ k. none; redis = 0 }

abbrev broken : Redis ℕ
broken = record {
  ttl = λ now key r. none;
  incr = λ now key r. none;
  expire = λ now key n r. none;
  set_ex = λ now key n r. none;
  del = λ now k j r. none;
}

abbrev ada : Identifier
ada = address (codes " Ada@x.org")

normalize_test : normalize ada ≡ address (codes "ada@x.org")
unfolding normalize
normalize_test = refl

five_failures_lock_example :
    (check_account_lock none 1000 ada
      (record_failed_attempt none 50 ada (failures none ada (10 ∷ 20 ∷ 30 ∷ 40 ∷ []) empty))).0
    ≡ some 900
five_failures_lock_example =
    five_failures_lock ada 10 (20 ∷ 30 ∷ 40 ∷ []) 50 1000 empty (λ w e. cc)
      (omega arith, (omega arith, (omega arith, tt))) (omega arith) (omega arith)
