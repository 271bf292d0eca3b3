-- ===== src/Lock.antt =====
-- src/shared/concurrency/distributed-lock.ts. The commands on Redis are arguments: a rejected
-- promise is `none`; the script that releases a lock runs as one step, or fails as one.
use backend_foundation.Prelude.{ℕ, ◌==◌, Bool, true, false, Option, none, some, if◌then◌else◌}
pub mod Laws
mod Tests

pub data LockToken : Type 0 where
  uuid : ℕ → LockToken
  no_redis_fallback redis_error_fallback : LockToken

pub record LockRedis (R : Type 0) : Type 0 where
  -- `SET key token PX ttl NX`: whether it answers OK
  pub set_nx : ℕ → ℕ → ℕ → R → Option (Bool × R)
  pub get : ℕ → R → Option ℕ
  pub del : ℕ → R → R
  -- the script can be sent
  pub reachable : R → Bool

-- The token, if the lock is acquired.
abbrev acquired_if : {R : Type 0} → ℕ → R → Option (Bool × R) → Option LockToken × R
acquired_if token r none = (some redis_error_fallback, r)
acquired_if token r (some (ok, r')) = if ok then (some (uuid token), r') else (none, r')

-- With the random token that the call draws.
unfoldable pub acquire_lock :
    {R : Type 0} → Option (LockRedis R) → ℕ → ℕ → ℕ → R → Option LockToken × R
acquire_lock none token key ttl r = (some no_redis_fallback, r)
acquire_lock (some api) token key ttl r = acquired_if token r (api.set_nx key token ttl r)

abbrev held_by : Option ℕ → ℕ → Bool
held_by none token = false
held_by (some n) token = n == token

-- RELEASE_LOCK_SCRIPT
unfoldable pub release_script : {R : Type 0} → LockRedis R → ℕ → ℕ → R → R
release_script api key token r = if held_by (api.get key r) token then api.del key r else r

unfoldable pub release_lock : {R : Type 0} → Option (LockRedis R) → ℕ → LockToken → R → R
unfolding release_script
release_lock none key token r = r
release_lock (some api) key (uuid token) r =
    if api.reachable r then release_script api key token r else r
release_lock (some api) key no_redis_fallback r = r
release_lock (some api) key redis_error_fallback r = r

-- What `fn` does with the state S that it works on; it may throw.
pub data Outcome (A E : Type 0) : Type 0 where
  skipped : Outcome A E
  ran : A → Outcome A E
  thrown : E → Outcome A E

module _ {R S A E : Type 0} (api : Option (LockRedis R)) (fn : S × R → Outcome A E × (S × R)) where
  abbrev finally_release : ℕ → LockToken → Outcome A E × (S × R) → Outcome A E × (S × R)
  finally_release key token (o, (s, r)) = (o, (s, release_lock api key token r))

  abbrev run_if_acquired : ℕ → S → Option LockToken → R → Outcome A E × (S × R)
  run_if_acquired key s none r = (skipped, (s, r))
  run_if_acquired key s (some token) r = finally_release key token (fn (s, r))

  unfoldable pub with_lock : ℕ → ℕ → ℕ → S × R → Outcome A E × (S × R)
  unfolding acquire_lock release_lock
  with_lock token key ttl (s, r) =
      let a = acquire_lock api token key ttl r in run_if_acquired key s a.0 a.1
