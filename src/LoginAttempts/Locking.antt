-- ===== src/LoginAttempts/Locking.antt =====
-- Without Redis: when an identifier is locked, for how long, and what unlocks it.
use backend_foundation.Prelude.{
  ℕ, ◌+◌, ◌-◌, ◌*◌, ◌≤◌, ◌<◌, ◌≡◌, ◌≢◌, refl, sym, ap, ◌∙◌, inl, inr, ltb, leb, Option, none, some,
  List, [], ◌∷◌, arith, length, All, Option-cases, if◌then◌else◌,
}
use backend_foundation.LoginAttempts.Defs.{
  Identifier, normalize, AttemptRecord, Tracker, next_record, record_memory, check_memory,
  reset_memory, check_account_lock, record_failed_attempt, reset_attempts, attempt_window_seconds,
  lock_duration_seconds, max_failed_attempts, ceil_seconds, LockStatus, remove,
}
use backend_foundation.LoginAttempts.Memory.{same_refl, same_ne, failures}

-- No count of the identifier runs at this time.
abbrev pub NoCount : {R : Type 0} → ℕ → Identifier → Tracker R → Type 0
NoCount now k t =
    (w : AttemptRecord) → t.memory_attempts (normalize k) ≡ some w → w.window_expires_at ≤ now

abbrev window_end : ℕ → ℕ
window_end start = start + attempt_window_seconds * 1000

abbrev counted : ℕ → ℕ → Option AttemptRecord
counted n start = some (record { count = n; window_expires_at = window_end start })

-- What the memory check answers of a stored lock.
abbrev status : ℕ → Option ℕ → LockStatus
status now none = none
status now (some until) = if ltb now until then some (ceil_seconds (until - now)) else none

check-status :
    {R : Type 0} (now : ℕ) (m : Identifier) (t : Tracker R)
    → (check_memory now m t).0 ≡ status now (t.memory_locks m)
unfolding check_memory
check-status now m t = ground arith

removed {ℓ} : {A : Type ℓ} (m : Identifier) (f : Identifier → Option A) → remove m f m ≡ none
removed m f = rw (same_refl m)

remove-other {ℓ} :
    {A : Type ℓ} (m j : Identifier) (f : Identifier → Option A) → m ≢ j → remove m f j ≡ f j
remove-other m j f h = rw (same_ne m j h)

module _ {R : Type 0} (k : Identifier) where
  record-inside :
      (start n now : ℕ) (t : Tracker R)
      → t.memory_attempts (normalize k) ≡ counted n start
      → now < window_end start
      → (record_memory now (normalize k) t).memory_attempts (normalize k) ≡ counted (n + 1) start
  unfolding record_memory
  record-inside start n now t e h = rw (e, next_record) (ground (arith, same_refl (normalize k)))

  record-first :
      (start : ℕ) (t : Tracker R)
      → NoCount start k t
      → (record_memory start (normalize k) t).memory_attempts (normalize k) ≡ counted 1 start
  unfolding record_memory
  record-first start t h = elim (Option-cases (t.memory_attempts (normalize k))) [
    | inl e ↦ rw (e, next_record) (ground (arith, same_refl (normalize k)))
    | inr (w, e) ↦ rw (e, next_record) (ground (arith, same_refl (normalize k), h w e))
  ]

  first-locks :
      (start : ℕ) (t : Tracker R)
      → NoCount start k t
      → (record_memory start (normalize k) t).memory_locks (normalize k)
        ≡ t.memory_locks (normalize k)
  unfolding record_memory
  first-locks start t h = elim (Option-cases (t.memory_attempts (normalize k))) [
    | inl e ↦ rw (e, next_record)
    | inr (w, e) ↦ rw (e, next_record) (ground (arith, h w e))
  ]

  record-locks :
      (start n now : ℕ) (t : Tracker R)
      → t.memory_attempts (normalize k) ≡ counted n start
      → now < window_end start
      → (record_memory now (normalize k) t).memory_locks (normalize k) ≡ (
          if leb max_failed_attempts (n + 1)
          then some (now + lock_duration_seconds * 1000)
          else t.memory_locks (normalize k))
  unfolding record_memory
  record-locks start n now t e h = rw (e, next_record) (ground (arith, same_refl (normalize k)))

  -- A run of failures inside an open window adds to its count, and changes no lock while it stays
  -- under the limit.
  count-failures :
      (start n : ℕ) (times : List ℕ) (t : Tracker R)
      → t.memory_attempts (normalize k) ≡ counted n start
      → All (λ now. now < window_end start) times
      → (failures none k times t).memory_attempts (normalize k) ≡ counted (n + length times) start
  unfolding failures record_failed_attempt
  count-failures start n [] t e inside = ground arith
  count-failures start n (now ∷ times) t e inside = ground (
    arith,
    count-failures start (n + 1) times (record_memory now (normalize k) t)
        (record-inside start n now t e inside.0) inside.1,
  )

  quiet-failures :
      (start n : ℕ) (times : List ℕ) (t : Tracker R)
      → t.memory_attempts (normalize k) ≡ counted n start
      → All (λ now. now < window_end start) times
      → n + length times < max_failed_attempts
      → (failures none k times t).memory_locks (normalize k) ≡ t.memory_locks (normalize k)
  unfolding failures record_failed_attempt
  quiet-failures start n [] t e inside few = refl
  quiet-failures start n (now ∷ times) t e inside few = ground (
    arith,
    record-locks start n now t e inside.0,
    quiet-failures start (n + 1) times (record_memory now (normalize k) t)
        (record-inside start n now t e inside.0) inside.1 (omega arith),
  )

-- The seconds for which a lock set at the time `last` still holds at the time `now`.
abbrev pub lock_left : ℕ → ℕ → LockStatus
lock_left last now =
    if ltb now (last + lock_duration_seconds * 1000)
    then some (ceil_seconds (last + lock_duration_seconds * 1000 - now))
    else none

-- Without Redis, an identifier with no running count that fails at the time `start`, then at
-- `times` and `last`, all within fifteen minutes of `start`, is locked from `last` on for exactly
-- fifteen minutes if these are five failures or more.
pub five_failures_lock :
    {R : Type 0} (k : Identifier) (start : ℕ) (times : List ℕ) (last now : ℕ) (t : Tracker R)
    → NoCount start k t
    → All (λ at. at < start + attempt_window_seconds * 1000) times
    → last < start + attempt_window_seconds * 1000
    → max_failed_attempts ≤ length times + 2
    → (check_account_lock none now k
        (record_failed_attempt none last k (failures none k (start ∷ times) t))).0
      ≡ lock_left last now
unfolding check_account_lock record_failed_attempt failures
five_failures_lock k start times last now t new inside h enough =
    let first = record_memory start (normalize k) t in
    let before = failures none k times first in
    let run = count-failures k start 1 times first (record-first k start t new) inside in
    check-status now (normalize k) (record_memory last (normalize k) before)
    ∙ ground (arith, record-locks k start (1 + length times) last before run h)

-- Under five failures within the window change no lock: the identifier is as locked as before.
pub few_failures_lock :
    {R : Type 0} (k : Identifier) (start : ℕ) (times : List ℕ) (now : ℕ) (t : Tracker R)
    → NoCount start k t
    → All (λ at. at < start + attempt_window_seconds * 1000) times
    → length times + 1 < max_failed_attempts
    → (check_account_lock none now k (failures none k (start ∷ times) t)).0
      ≡ (check_account_lock none now k t).0
unfolding check_account_lock record_failed_attempt failures
few_failures_lock k start times now t new inside few =
    let first = record_memory start (normalize k) t in
    check-status now (normalize k) (failures none k times first)
    ∙ ap (status now) (
        quiet-failures k start 1 times first (record-first k start t new) inside (omega arith)
        ∙ first-locks k start t new)
    ∙ sym (check-status now (normalize k) t)

-- Without Redis, a reset unlocks its identifier and forgets its count, and changes the lock of no
-- identifier that is another one after normalisation.
pub reset_unlocks :
    {R : Type 0} (k j : Identifier) (now : ℕ) (t : Tracker R)
    → normalize k ≢ normalize j
    → ((check_account_lock none now k (reset_attempts none now k t)).0 ≡ none)
      × ((reset_attempts none now k t).memory_attempts (normalize k) ≡ none)
      × ((check_account_lock none now j (reset_attempts none now k t)).0
          ≡ (check_account_lock none now j t).0)
unfolding check_account_lock reset_attempts reset_memory
reset_unlocks k j now t ne = (
  check-status now (normalize k) (reset_memory (normalize k) t)
      ∙ ap (status now) (removed (normalize k) t.memory_locks),
  removed (normalize k) t.memory_attempts,
  check-status now (normalize j) (reset_memory (normalize k) t)
      ∙ ap (status now) (remove-other (normalize k) (normalize j) t.memory_locks ne)
      ∙ sym (check-status now (normalize j) t),
)
