-- ===== src/Reliability/Retry.antt =====
-- src/shared/reliability/retry.ts: `withRetry`. What the n-th call of `fn` answers is an argument.
use backend_foundation.Prelude.{
  ℕ, zero, suc, ◌+◌, ◌-◌, ◌*◌, ◌^◌, ◌≤◌, ◌<◌, ◌≡◌, leb, refl, Bool, true, false, not, ◌||◌, ◌==◌,
  Option, none, some, List, [], ◌∷◌, length, arith, All, if◌then◌else◌, Bool-cases, ◌⊎◌, inl, inr,
  subst, sym, ap,
}

pub data Attempt {ℓ κ} (A : Type ℓ) (E : Type κ) : Type (ℓ ⊔ κ) where
  returned : A → Attempt A E
  threw : E → Attempt A E

pub record RetryOptions (E : Type 0) : Type 0 where
  pub attempts : ℕ
  pub base_delay_ms : ℕ
  pub max_delay_ms : Option ℕ
  pub is_retryable : E → Bool

abbrev at_most : ℕ → Option ℕ → ℕ
at_most n none = n
at_most n (some m) = if leb n m then n else m

-- The pause after the attempt with this number.
unfoldable pub delay_after : {E : Type 0} → RetryOptions E → ℕ → ℕ
delay_after options attempt =
    at_most (options.base_delay_ms * 2 ^ (attempt - 1)) options.max_delay_ms

-- The answer, the number of calls of `fn`, and the pauses between them. No answer stands for
-- `throw lastError` behind a loop that never ran.
pub record Retried (A E : Type 0) : Type 0 where
  pub answer : Option (Attempt A E)
  pub calls : ℕ
  pub pauses : List ℕ

delay-capped :
    {E : Type 0} (options : RetryOptions E) (attempt m : ℕ)
    → options.max_delay_ms ≡ some m
    → delay_after options attempt ≤ m
unfolding delay_after
delay-capped options attempt m capped = rw capped (ground arith)

below_or_same : (m n : ℕ) → m ≤ n → (m < n) ⊎ (m ≡ n)
below_or_same m n h = ground arith

module _ {A E : Type 0} (fn : ℕ → Attempt A E) (options : RetryOptions E) where
  abbrev pub paused : ℕ → Retried A E → Retried A E
  paused ms r = record r { pauses = ms ∷ r.pauses }

  abbrev pub after_attempt : ℕ → Retried A E → Attempt A E → Retried A E
  after_attempt attempt later (returned a) = record {
    answer = some (returned a);
    calls = attempt;
    pauses = [];
  }
  after_attempt attempt later (threw e) =
      if not (options.is_retryable e) || attempt == options.attempts
      then record { answer = some (threw e); calls = attempt; pauses = [] }
      else paused (delay_after options attempt) later

  -- The `for` loop from this attempt on, with so many attempts left.
  unfoldable pub attempts_from : ℕ → ℕ → Retried A E
  attempts_from zero attempt = record { answer = none; calls = attempt - 1; pauses = [] }
  attempts_from (suc left) attempt =
      after_attempt attempt (attempts_from left (attempt + 1)) (fn attempt)

  unfoldable pub with_retry : Retried A E
  unfolding attempts_from
  with_retry = attempts_from options.attempts 1

  -- The loop ends at an attempt with this answer.
  abbrev pub final : ℕ → Attempt A E → Bool
  final attempt (returned a) = true
  final attempt (threw e) = not (options.is_retryable e) || attempt == options.attempts

  stops-here :
      (attempt : ℕ) (later : Retried A E) (a : Attempt A E)
      → final attempt a ≡ true
      → after_attempt attempt later a ≡ record { answer = some a; calls = attempt; pauses = [] }
  stops-here attempt later (returned a) h = refl
  stops-here attempt later (threw e) h = ground arith

  goes-on :
      (attempt : ℕ) (later : Retried A E) (a : Attempt A E)
      → final attempt a ≡ false
      → after_attempt attempt later a ≡ paused (delay_after options attempt) later
  goes-on attempt later (returned a) h = absurd (cc)
  goes-on attempt later (threw e) h = ground arith

  from-answer :
      (left attempt k : ℕ)
      → attempt + left ≡ options.attempts + 1
      → attempt ≤ k
      → k ≤ options.attempts
      → ((n : ℕ) → attempt ≤ n → n < k → final n (fn n) ≡ false)
      → final k (fn k) ≡ true
      → ((attempts_from left attempt).answer ≡ some (fn k))
        × ((attempts_from left attempt).calls ≡ k)
        × (attempt + length (attempts_from left attempt).pauses ≡ k)
  unfolding attempts_from
  from-answer zero attempt k total low high before stop = absurd (omega arith)
  from-answer (suc left) attempt k total low high before stop = elim (below_or_same attempt k low) [
    | inl under ↦
        let later =
          from-answer left (attempt + 1) k (omega arith) (omega arith) high
            (λ n h g. before n (omega arith) g) stop in
        rw
          (goes-on attempt (attempts_from left (attempt + 1)) (fn attempt)
            (before attempt (omega arith) under))
          (later.0, later.1, omega (arith, later.2))
    | inr same ↦
        rw
          (stops-here attempt (attempts_from left (attempt + 1)) (fn attempt)
            (subst (λ n. final n (fn n) ≡ true) (sym same) stop))
          (ap (λ n. some (fn n)) same, same, omega arith)
  ]

  -- The first attempt that returns, throws an error that is not to be retried, or is the last one
  -- ends the loop: its answer is the answer, `fn` has been called that often, and there was a pause
  -- between any two calls.
  pub retry_stops :
      (k : ℕ)
      → 1 ≤ k
      → k ≤ options.attempts
      → ((n : ℕ) → 1 ≤ n → n < k → final n (fn n) ≡ false)
      → final k (fn k) ≡ true
      → (with_retry.answer ≡ some (fn k))
        × (with_retry.calls ≡ k)
        × (1 + length with_retry.pauses ≡ k)
  unfolding with_retry
  retry_stops k low high before stop =
      from-answer options.attempts 1 k (omega arith) low high before stop

  from-bounded :
      (left attempt m : ℕ)
      → 1 ≤ attempt
      → attempt + left ≡ options.attempts + 1
      → options.max_delay_ms ≡ some m
      → ((attempts_from left attempt).calls ≤ options.attempts)
        × All (λ ms. ms ≤ m) (attempts_from left attempt).pauses
  unfolding attempts_from
  from-bounded zero attempt m pos total capped = (omega arith, tt)
  from-bounded (suc left) attempt m pos total capped =
      let later = from-bounded left (attempt + 1) m (omega arith) (omega arith) capped in
      elim (Bool-cases (final attempt (fn attempt))) [
        | inl e ↦
            rw (stops-here attempt (attempts_from left (attempt + 1)) (fn attempt) e)
              (omega arith, tt)
        | inr e ↦
            rw (goes-on attempt (attempts_from left (attempt + 1)) (fn attempt) e)
              (later.0, (delay-capped options attempt m capped, later.1))
      ]

  -- `fn` is called no more often than `attempts` says, and no pause is longer than `maxDelayMs`.
  pub retry_bounded :
      (m : ℕ)
      → options.max_delay_ms ≡ some m
      → (with_retry.calls ≤ options.attempts) × All (λ ms. ms ≤ m) with_retry.pauses
  unfolding with_retry
  retry_bounded m capped = from-bounded options.attempts 1 m (omega arith) (omega arith) capped
