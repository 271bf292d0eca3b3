-- ===== src/LoginAttempts/Defs.antt =====
-- The tracker's state and its three operations.
use backend_foundation.Prelude.{
  ℕ, ◌+◌, ◌-◌, ◌*◌, ◌/◌, ◌==◌, Bool, true, false, ◌&&◌, ◌||◌, ltb, leb, Option, none, some, List,
  [], ◌∷◌, map, or_else, if◌then◌else◌,
}
use backend_foundation.UserAgent.{to_lower}

abbrev pub max_failed_attempts : ℕ
max_failed_attempts = 5

abbrev pub attempt_window_seconds : ℕ
attempt_window_seconds = 15 * 60

abbrev pub lock_duration_seconds : ℕ
lock_duration_seconds = 15 * 60

-- The text that is counted: an email as it was typed, or `mfa:<userId>`. The two never meet, as an
-- email has an `@` and a user id has none.
pub data Identifier : Type 0 where
  address : List ℕ → Identifier
  mfa : ℕ → Identifier

abbrev pub same_text : List ℕ → List ℕ → Bool
same_text [] [] = true
same_text [] (d ∷ t) = false
same_text (c ∷ s) [] = false
same_text (c ∷ s) (d ∷ t) = c == d && same_text s t

abbrev pub same : Identifier → Identifier → Bool
same (address s) (address t) = same_text s t
same (address s) (mfa n) = false
same (mfa m) (address t) = false
same (mfa m) (mfa n) = m == n

-- The blanks of ASCII; `trim` also takes off others.
abbrev pub is_blank : ℕ → Bool
is_blank c = leb 9 c && leb c 13 || c == 32

unfoldable pub trim_left : List ℕ → List ℕ
trim_left [] = []
trim_left (c ∷ s) = let rest = trim_left s in if is_blank c then rest else c ∷ s

-- A character before a text that ends in no blank.
abbrev pub before_trimmed : ℕ → List ℕ → List ℕ
before_trimmed d [] = if is_blank d then [] else d ∷ []
before_trimmed d (e ∷ r) = d ∷ e ∷ r

unfoldable pub trim_right : List ℕ → List ℕ
trim_right [] = []
trim_right (c ∷ s) = before_trimmed c (trim_right s)

-- `identifier.trim().toLowerCase()`
unfoldable pub normalize : Identifier → Identifier
unfolding trim_left trim_right to_lower
normalize (address s) = address (map to_lower (trim_right (trim_left s)))
normalize (mfa n) = mfa n

pub record AttemptRecord : Type 0 where
  pub count : ℕ
  pub window_expires_at : ℕ

pub data RedisKey : Type 0 where
  attempts_key : Identifier → RedisKey
  lock_key : Identifier → RedisKey

-- The commands that the tracker sends, at a time in milliseconds; `none` is a rejected promise.
-- `ttl` answers 0 where Redis answers a negative number: no such key, or no expiry.
pub record Redis (R : Type 0) : Type 0 where
  pub ttl : ℕ → RedisKey → R → Option ℕ
  pub incr : ℕ → RedisKey → R → Option (ℕ × R)
  pub expire : ℕ → RedisKey → ℕ → R → Option R
  pub set_ex : ℕ → RedisKey → ℕ → R → Option R
  pub del : ℕ → RedisKey → RedisKey → R → Option R

pub record Tracker (R : Type 0) : Type 0 where
  pub memory_attempts : Identifier → Option AttemptRecord
  pub memory_locks : Identifier → Option ℕ
  pub redis : R

abbrev pub put {ℓ} : {A : Type ℓ} → Identifier → A → (Identifier → Option A) → Identifier → Option A
put k a m j = if same k j then some a else m j

abbrev pub remove {ℓ} : {A : Type ℓ} → Identifier → (Identifier → Option A) → Identifier → Option A
remove k m j = if same k j then none else m j

-- `Math.ceil(ms / 1000)`
abbrev pub ceil_seconds : ℕ → ℕ
ceil_seconds ms = (ms + 999) / 1000

-- The seconds left, or `none` where it is not locked.
abbrev pub LockStatus : Type 0
LockStatus = Option ℕ

unfoldable pub next_record : ℕ → Option AttemptRecord → AttemptRecord
next_record now none = record { count = 1; window_expires_at = now + attempt_window_seconds * 1000 }
next_record now (some r) =
    if ltb now r.window_expires_at
    then record { count = r.count + 1; window_expires_at = r.window_expires_at }
    else record { count = 1; window_expires_at = now + attempt_window_seconds * 1000 }

abbrev pub locked_for : Option ℕ → LockStatus
locked_for none = none
locked_for (some seconds) = if ltb 0 seconds then some seconds else none

module _ {R : Type 0} where
  abbrev pub check_memory_lock : ℕ → Identifier → Option ℕ → Tracker R → LockStatus × Tracker R
  check_memory_lock now k none t = (none, t)
  check_memory_lock now k (some until) t =
      if ltb now until
      then (some (ceil_seconds (until - now)), t)
      else (none, record t { memory_locks = remove k t.memory_locks })

  unfoldable pub check_memory : ℕ → Identifier → Tracker R → LockStatus × Tracker R
  check_memory now k t = check_memory_lock now k (t.memory_locks k) t

  unfoldable pub record_memory : ℕ → Identifier → Tracker R → Tracker R
  unfolding next_record
  record_memory now k t =
      let r = next_record now (t.memory_attempts k) in
      record t {
        memory_attempts = put k r t.memory_attempts;
        memory_locks =
            if leb max_failed_attempts r.count
            then put k (now + lock_duration_seconds * 1000) t.memory_locks
            else t.memory_locks;
      }

  unfoldable pub reset_memory : Identifier → Tracker R → Tracker R
  reset_memory k t = record t {
    memory_attempts = remove k t.memory_attempts;
    memory_locks = remove k t.memory_locks;
  }

  abbrev pub keep_redis : Tracker R → Option R → Tracker R
  keep_redis t none = t
  keep_redis t (some r) = record t { redis = r }

  module _ (api : Redis R) where
    -- A command that fails ends the `try` block: the later ones are not sent.
    abbrev pub lock_redis : ℕ → Identifier → ℕ → R → R
    lock_redis now k count r =
        if leb max_failed_attempts count
        then or_else (api.set_ex now (lock_key k) lock_duration_seconds r) r
        else r

    abbrev pub after_expire : ℕ → Identifier → ℕ → R → Option R → R
    after_expire now k count r none = r
    after_expire now k count r (some r') = lock_redis now k count r'

    abbrev pub after_incr : ℕ → Identifier → R → Option (ℕ × R) → R
    after_incr now k r none = r
    after_incr now k r (some (count, r')) =
        if count == 1
        then after_expire now k count r' (api.expire now (attempts_key k) attempt_window_seconds r')
        else lock_redis now k count r'

    unfoldable pub check_redis : ℕ → Identifier → Tracker R → LockStatus × Tracker R
    check_redis now k t = (locked_for (api.ttl now (lock_key k) t.redis), t)

    unfoldable pub record_redis : ℕ → Identifier → Tracker R → Tracker R
    record_redis now k t = record t {
      redis = after_incr now k t.redis (api.incr now (attempts_key k) t.redis);
    }

    unfoldable pub reset_redis : ℕ → Identifier → Tracker R → Tracker R
    reset_redis now k t = keep_redis t (api.del now (attempts_key k) (lock_key k) t.redis)

  -- `redisClient` is null where no Redis is configured.
  unfoldable pub check_account_lock :
      Option (Redis R) → ℕ → Identifier → Tracker R → LockStatus × Tracker R
  unfolding check_redis check_memory
  check_account_lock none now k = check_memory now (normalize k)
  check_account_lock (some api) now k = check_redis api now (normalize k)

  unfoldable pub record_failed_attempt : Option (Redis R) → ℕ → Identifier → Tracker R → Tracker R
  unfolding record_redis record_memory
  record_failed_attempt none now k = record_memory now (normalize k)
  record_failed_attempt (some api) now k = record_redis api now (normalize k)

  unfoldable pub reset_attempts : Option (Redis R) → ℕ → Identifier → Tracker R → Tracker R
  unfolding reset_redis reset_memory
  reset_attempts none now k = reset_memory (normalize k)
  reset_attempts (some api) now k = reset_redis api now (normalize k)
