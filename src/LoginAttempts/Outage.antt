-- ===== src/LoginAttempts/Outage.antt =====
-- With Redis configured but failing, the tracker lets everyone through.
use backend_foundation.Prelude.{ℕ, ◌≡◌, refl, none, some, List, [], ◌∷◌}
use backend_foundation.LoginAttempts.Defs.{
  Identifier, RedisKey, Redis, Tracker, check_account_lock, record_failed_attempt, reset_attempts,
}
use backend_foundation.LoginAttempts.Memory.{failures}

-- Every command is rejected in this state of Redis.
pub record IsDown {R : Type 0} (api : Redis R) (r : R) : Type 0 where
  pub ttl : (now : ℕ) (key : RedisKey) → api.ttl now key r ≡ none
  pub incr : (now : ℕ) (key : RedisKey) → api.incr now key r ≡ none
  pub del : (now : ℕ) (k j : RedisKey) → api.del now k j r ≡ none

record-down :
    {R : Type 0} (api : Redis R) (now : ℕ) (k : Identifier) (t : Tracker R)
    → IsDown api t.redis
    → record_failed_attempt (some api) now k t ≡ t
unfolding record_failed_attempt
record-down api now k t down = rw (down.incr now _)

failures-down :
    {R : Type 0} (api : Redis R) (k : Identifier) (times : List ℕ) (t : Tracker R)
    → IsDown api t.redis
    → failures (some api) k times t ≡ t
unfolding failures
failures-down api k [] t down = refl
failures-down api k (now ∷ times) t down =
    rw (record-down api now k t down) (failures-down api k times t down)

-- While every command to Redis fails, no number of failed attempts locks an identifier, also if the
-- memory maps hold a lock for it, and a reset changes nothing.
pub outage_never_locks :
    {R : Type 0} (api : Redis R) (k : Identifier) (times : List ℕ) (now : ℕ) (t : Tracker R)
    → IsDown api t.redis
    → ((check_account_lock (some api) now k (failures (some api) k times t)).0 ≡ none)
      × (reset_attempts (some api) now k t ≡ t)
unfolding check_account_lock reset_attempts
outage_never_locks api k times now t down =
    (rw (failures-down api k times t down) (rw (down.ttl now _)), rw (down.del now _ _))
