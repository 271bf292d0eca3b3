-- ===== src/Lock/Laws.antt =====
-- Who holds a lock, and who may release it.
use backend_foundation.Prelude.{ℕ, ◌≡◌, ◌≢◌, false, none, some, arith}
use backend_foundation.Lock.{uuid, LockRedis, release_lock, Outcome, skipped, with_lock}

-- Where Redis refuses to set the key, since it is held, the call is skipped: `fn` does not run, its
-- state stays as it was, and no release touches the lock of the holder.
pub lock_excludes :
    {R S A E : Type 0} (api : LockRedis R) (fn : S × R → Outcome A E × (S × R)) (token key ttl : ℕ)
    (s : S) (r r' : R)
    → api.set_nx key token ttl r ≡ some (false, r')
    → with_lock (some api) fn token key ttl (s, r) ≡ (skipped, (s, r'))
unfolding with_lock
lock_excludes api fn token key ttl s r r' refused = ground arith

-- A release with a token that does not hold the key, as when its time ran out and another call has
-- acquired the lock, leaves Redis as it was.
pub late_release_harmless :
    {R : Type 0} (api : LockRedis R) (key token other : ℕ) (r : R)
    → api.get key r ≡ some other
    → other ≢ token
    → release_lock (some api) key (uuid token) r ≡ r
unfolding release_lock
late_release_harmless api key token other r held ne = ground arith

-- Where setting the key fails, the lock excludes nobody: the call runs `fn` all the same, and does
-- nothing to Redis afterwards.
pub outage_excludes_nobody :
    {R S A E : Type 0} (api : LockRedis R) (fn : S × R → Outcome A E × (S × R)) (token key ttl : ℕ)
    (s : S) (r : R)
    → api.set_nx key token ttl r ≡ none
    → with_lock (some api) fn token key ttl (s, r) ≡ fn (s, r)
unfolding with_lock
outage_excludes_nobody api fn token key ttl s r fails = ground arith
