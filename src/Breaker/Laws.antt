-- ===== src/Breaker/Laws.antt =====
-- When the breaker is open, what opens it, and what a late answer does.
use backend_foundation.Prelude.{
  ℕ, ◌+◌, ◌-◌, ◌≤◌, ◌<◌, ◌≡◌, refl, true, false, leb, List, [], ◌∷◌, arith, All, length,
  if◌then◌else◌, ap, ◌⊎◌, inl, inr,
}
use backend_foundation.Breaker.{
  closed, opened, half_open, Breaker, CircuitBreakerOptions, new_breaker, admit, succeed, fail,
  Event, arrives, succeeds, fails, step, run, failing_call, failing_calls, count_admitted,
}

-- A closed breaker has counted fewer failures than open it.
abbrev pub UnderThreshold : CircuitBreakerOptions → Breaker → Type 0
UnderThreshold options b = b.state ≡ closed → b.consecutive_failures < options.failure_threshold

step-UnderThreshold :
    (options : CircuitBreakerOptions) (e : Event) (b : Breaker)
    → 1 ≤ options.failure_threshold
    → UnderThreshold options b
    → UnderThreshold options (step options e b)
unfolding step admit succeed fail
step-UnderThreshold options (arrives now) b pos h = ground (arith, h)
step-UnderThreshold options succeeds b pos h = λ e. omega arith
step-UnderThreshold options (fails now) b pos h = ground (arith, h)

-- Whatever arrives, succeeds and fails in whatever order, a closed breaker has counted fewer
-- failures than the threshold, if the threshold is not 0 and that was so before.
pub run-UnderThreshold :
    (options : CircuitBreakerOptions) (es : List Event) (b : Breaker)
    → 1 ≤ options.failure_threshold
    → UnderThreshold options b
    → UnderThreshold options (run options es b)
unfolding run
run-UnderThreshold options [] b pos h = h
run-UnderThreshold options (e ∷ es) b pos h =
    run-UnderThreshold options es (step options e b) pos (step-UnderThreshold options e b pos h)

-- While the reset timeout of an open breaker runs, no call goes through.
refused-calls :
    (options : CircuitBreakerOptions) (times : List ℕ) (calls : ℕ) (b : Breaker)
    → b.state ≡ opened
    → All (λ now. now < b.opened_at + options.reset_timeout_ms) times
    → failing_calls options times (calls, b) ≡ (calls, b)
unfolding failing_calls failing_call admit
refused-calls options [] calls b e h = refl
refused-calls options (now ∷ times) calls b e h =
    ground (arith, h.0, refused-calls options times calls b e h.1)

below_or_not : (m n : ℕ) → (m < n) ⊎ (n ≤ m)
below_or_not m n = ground arith

within :
    (start now span : ℕ) (times : List ℕ)
    → start ≤ now
    → All (λ at. (start ≤ at) × (at < start + span)) times
    → All (λ at. at < now + span) times
within start now span [] h k = tt
within start now span (at ∷ times) h k = (omega (arith, k.0.1), within start now span times h k.1)

failing_calls-closed :
    (options : CircuitBreakerOptions) (now : ℕ) (times : List ℕ) (calls : ℕ) (b : Breaker)
    → b.state ≡ closed
    → failing_calls options (now ∷ times) (calls, b)
      ≡ failing_calls options times (calls + 1, fail options now b)
unfolding failing_calls failing_call admit
failing_calls-closed options now times calls b e = ground arith

failing_calls-none :
    (options : CircuitBreakerOptions) (s : ℕ × Breaker) → failing_calls options [] s ≡ s
unfolding failing_calls
failing_calls-none options s = refl

fail-opens :
    (options : CircuitBreakerOptions) (now : ℕ) (b : Breaker)
    → options.failure_threshold ≤ b.consecutive_failures + 1
    → fail options now b ≡ record {
      state = opened;
      consecutive_failures = b.consecutive_failures + 1;
      opened_at = now;
    }
unfolding fail
fail-opens options now b h = ground arith

fail-counts :
    (options : CircuitBreakerOptions) (now : ℕ) (b : Breaker)
    → b.state ≡ closed
    → b.consecutive_failures + 1 < options.failure_threshold
    → fail options now b ≡ record b { consecutive_failures = b.consecutive_failures + 1 }
unfolding fail
fail-counts options now b e h = ground arith

counted-calls :
    (options : CircuitBreakerOptions) (start : ℕ) (times : List ℕ) (calls : ℕ) (b : Breaker)
    → b.state ≡ closed
    → b.consecutive_failures < options.failure_threshold
    → All (λ now. (start ≤ now) × (now < start + options.reset_timeout_ms)) times
    → (failing_calls options times (calls, b)).0
      ≡ calls
        + (if leb (length times) (options.failure_threshold - b.consecutive_failures)
            then length times
            else options.failure_threshold - b.consecutive_failures)
counted-calls options start [] calls b e f h = ground (arith, failing_calls-none options (calls, b))
counted-calls options start (now ∷ times) calls b e f h =
    rw (failing_calls-closed options now times calls b e)
      (elim (below_or_not (b.consecutive_failures + 1) options.failure_threshold) [
        | inl under ↦ rw (fail-counts options now b e under) (
            ground (
              arith,
              counted-calls options start times (calls + 1)
                  (record b { consecutive_failures = b.consecutive_failures + 1 }) e under h.1,
            ))
        | inr over ↦
            let b' : Breaker = record {
              state = opened;
              consecutive_failures = b.consecutive_failures + 1;
              opened_at = now;
            } in
            rw (fail-opens options now b over) (
              ground (
                arith,
                ap (λ (r : ℕ × Breaker). r.0)
                    (refused-calls options times (calls + 1) b' refl
                      (within start now options.reset_timeout_ms times h.0.0 h.1)),
              ))
      ])

-- While the provider is down, a fresh breaker lets calls through, one after the other, until the
-- threshold is reached, and then none for as long as the reset timeout runs: of all calls within
-- one such span, exactly the first `failureThreshold` reach the provider.
pub outage_calls :
    (options : CircuitBreakerOptions) (start : ℕ) (times : List ℕ)
    → 1 ≤ options.failure_threshold
    → All (λ now. (start ≤ now) × (now < start + options.reset_timeout_ms)) times
    → (failing_calls options times (0, new_breaker)).0 ≡ (
        if leb (length times) options.failure_threshold
        then length times
        else options.failure_threshold)
outage_calls options start times pos h =
    ground (arith, counted-calls options start times 0 new_breaker refl (omega arith) h)

-- One call that finds the breaker open with its timeout over goes through as the probe, and none
-- after it, however many arrive and whenever, until the probe is answered.
pub one_probe :
    (options : CircuitBreakerOptions) (now : ℕ) (times : List ℕ) (b : Breaker)
    → b.state ≡ opened
    → b.opened_at + options.reset_timeout_ms ≤ now
    → count_admitted options (now ∷ times) b ≡ 1
unfolding count_admitted admit
one_probe options now times b e h = ground (arith, none_more times)
  where
    none_more : (ts : List ℕ) → count_admitted options ts (record b { state = half_open }) ≡ 0
    none_more [] = refl
    none_more (t ∷ ts) = ground (arith, none_more ts)

-- Two calls overlap on a closed breaker. The first fails and opens it. When the second succeeds the
-- breaker is closed again, and a call is let through although the reset timeout has not run.
pub late_success_closes :
    (options : CircuitBreakerOptions) (first second failed_at next : ℕ) (b : Breaker)
    → b.state ≡ closed
    → options.failure_threshold ≤ b.consecutive_failures + 1
    → next < failed_at + options.reset_timeout_ms
    → ((run options (arrives first ∷ arrives second ∷ fails failed_at ∷ []) b).state ≡ opened)
      × ((admit options next
            (run options (arrives first ∷ arrives second ∷ fails failed_at ∷ []) b)).0
          ≡ false)
      × ((admit options next
            (run options (arrives first ∷ arrives second ∷ fails failed_at ∷ succeeds ∷ []) b)).0
          ≡ true)
unfolding run step admit succeed fail
late_success_closes options first second failed_at next b e f h =
    (ground arith, ground arith, ground arith)
