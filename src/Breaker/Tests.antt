-- ===== src/Breaker/Tests.antt =====
-- Runs of src/shared/reliability/circuit-breaker.ts.
use backend_foundation.Prelude.{◌≡◌, refl, arith, true, false, [], ◌∷◌}
use backend_foundation.Breaker.{
  opened, Breaker, CircuitBreakerOptions, new_breaker, admit, arrives, succeeds, fails, run,
}
use backend_foundation.Breaker.Laws.{late_success_closes}

abbrev options : CircuitBreakerOptions
options = record { failure_threshold = 2; reset_timeout_ms = 1000 }

abbrev eager : CircuitBreakerOptions
eager = record { failure_threshold = 1; reset_timeout_ms = 1000 }

abbrev tripped : Breaker
tripped = record { state = opened; consecutive_failures = 2; opened_at = 50 }

late_success_closes_example :
    ((run eager (arrives 1 ∷ arrives 2 ∷ fails 3 ∷ []) new_breaker).state ≡ opened)
    × ((admit eager 5 (run eager (arrives 1 ∷ arrives 2 ∷ fails 3 ∷ []) new_breaker)).0 ≡ false)
    × ((admit eager 5 (run eager (arrives 1 ∷ arrives 2 ∷ fails 3 ∷ succeeds ∷ []) new_breaker)).0
        ≡ true)
late_success_closes_example =
    late_success_closes eager 1 2 3 5 new_breaker refl (omega arith) (omega arith)
