-- ===== src/Lock/Tests.antt =====
-- Runs of src/shared/concurrency/distributed-lock.ts on a store with one key.
use backend_foundation.Prelude.{ℕ, ◌≡◌, refl, ◌+◌, Bool, true, false, Option, none, some}
use backend_foundation.Lock.{LockRedis, Outcome, ran, skipped, with_lock}

abbrev set_if_free : ℕ → Option ℕ → Option (Bool × Option ℕ)
set_if_free token none = some (true, some token)
set_if_free token (some other) = some (false, some other)

abbrev one_key : LockRedis (Option ℕ)
one_key = record {
  set_nx = λ key token ttl r. set_if_free token r;
  get = λ key r. r;
  del = λ key r. none;
  reachable = λ r. true;
}

abbrev broken : LockRedis (Option ℕ)
broken = record one_key { set_nx = λ key token ttl r. none }

abbrev count : ℕ × Option ℕ → Outcome ℕ ℕ × (ℕ × Option ℕ)
count (n, r) = (ran n, (n + 1, r))

-- The lock is taken, the function is run, and the lock is free again.
runs_test : with_lock (some one_key) count 4 1 30 (0, none) ≡ (ran 0, (1, none))
unfolding with_lock
runs_test = refl

-- The lock is held with the token 9.
held_test : with_lock (some one_key) count 4 1 30 (0, some 9) ≡ (skipped, (0, some 9))
unfolding with_lock
held_test = refl

outage_test : with_lock (some broken) count 4 1 30 (0, some 9) ≡ (ran 0, (1, some 9))
unfolding with_lock
outage_test = refl
