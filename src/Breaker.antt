-- ===== src/Breaker.antt =====
-- src/shared/reliability/circuit-breaker.ts: `withCircuitBreaker` for one key, cut at the await of
-- the provider's call, so that calls overlap: a call arrives and is let through or refused, and
-- later it succeeds or fails.
use backend_foundation.Prelude.{
  ℕ, ◌+◌, ltb, leb, Bool, true, false, ◌||◌, List, [], ◌∷◌, if◌then◌else◌,
}
pub mod Laws
mod Tests

pub data BreakerState : Type 0 where
  closed opened half_open : BreakerState

pub record Breaker : Type 0 where
  pub state : BreakerState
  pub consecutive_failures : ℕ
  pub opened_at : ℕ

pub record CircuitBreakerOptions : Type 0 where
  pub failure_threshold : ℕ
  pub reset_timeout_ms : ℕ

abbrev pub new_breaker : Breaker
new_breaker = record { state = closed; consecutive_failures = 0; opened_at = 0 }

abbrev pub is_half_open : BreakerState → Bool
is_half_open closed = false
is_half_open opened = false
is_half_open half_open = true

abbrev admit_in : CircuitBreakerOptions → ℕ → Breaker → BreakerState → Bool × Breaker
admit_in options now b closed = (true, b)
admit_in options now b opened =
    if ltb now (b.opened_at + options.reset_timeout_ms)
    then (false, b)
    else (true, record b { state = half_open })
admit_in options now b half_open = (false, b)

-- Whether a call that arrives goes on to the provider; if not, it throws `CircuitOpenError`.
unfoldable pub admit : CircuitBreakerOptions → ℕ → Breaker → Bool × Breaker
admit options now b = admit_in options now b b.state

-- The provider's call has returned.
unfoldable pub succeed : Breaker → Breaker
succeed b = record b { state = closed; consecutive_failures = 0 }

-- The provider's call has thrown.
unfoldable pub fail : CircuitBreakerOptions → ℕ → Breaker → Breaker
fail options now b =
    let failures = b.consecutive_failures + 1 in
    if is_half_open b.state || leb options.failure_threshold failures
    then record { state = opened; consecutive_failures = failures; opened_at = now }
    else record b { consecutive_failures = failures }

-- What happens to the breaker, in the order in which it happens.
pub data Event : Type 0 where
  arrives : ℕ → Event
  succeeds : Event
  fails : ℕ → Event

unfoldable pub step : CircuitBreakerOptions → Event → Breaker → Breaker
step options (arrives now) b = (admit options now b).1
step options succeeds b = succeed b
step options (fails now) b = fail options now b

unfoldable pub run : CircuitBreakerOptions → List Event → Breaker → Breaker
run options [] b = b
run options (e ∷ es) b = run options es (step options e b)

-- A call that does not overlap with others, at a time when the provider is down; it counts how
-- often the provider was called.
unfoldable pub failing_call : CircuitBreakerOptions → ℕ → ℕ × Breaker → ℕ × Breaker
failing_call options now (calls, b) =
    let r = admit options now b in if r.0 then (calls + 1, fail options now r.1) else (calls, r.1)

unfoldable pub failing_calls : CircuitBreakerOptions → List ℕ → ℕ × Breaker → ℕ × Breaker
failing_calls options [] s = s
failing_calls options (now ∷ times) s = failing_calls options times (failing_call options now s)

-- How many of the calls that arrive at these times are let through, none of them answered yet.
unfoldable pub count_admitted : CircuitBreakerOptions → List ℕ → Breaker → ℕ
count_admitted options [] b = 0
count_admitted options (now ∷ times) b =
    let r = admit options now b in
    let rest = count_admitted options times r.1 in if r.0 then 1 + rest else rest
