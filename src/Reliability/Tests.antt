-- ===== src/Reliability/Tests.antt =====
-- Runs of src/shared/reliability/bulkhead.ts and retry.ts.
use backend_foundation.Reliability.Idempotency.{
  Response, handled, replayed, waiting, answered, IdempotencyState, IdempotencyEvent, reads, locks,
  responds, run_requests, step_request, all_waiting, is_busy,
}
use backend_foundation.Reliability.IdempotencyLaws.{one_at_a_time}
use backend_foundation.Reliability.Replays.{
  is_settled, late_lock, stored_answer_replayed, late_lock_runs_again,
}
use backend_foundation.Prelude.{
  ℕ, zero, suc, ◌≡◌, refl, true, false, none, some, Bool-cases, inl, inr, ◌==◌, if◌then◌else◌, List,
  [], ◌∷◌, arith,
}
use backend_foundation.Reliability.Bulkhead
use backend_foundation.Reliability.Retry.{Attempt, returned, threw, RetryOptions}

abbrev options : Bulkhead.BulkheadOptions
options = record { max_concurrent = 1; max_queue = 1 }

abbrev full : Bulkhead.BulkheadState
full = record { active = 1; waiters = 7 ∷ []; woken = [] }

abbrev events : List Bulkhead.BulkheadEvent
events = Bulkhead.arrives 8 ∷ Bulkhead.ends ∷ Bulkhead.resumes ∷ []

-- The first call throws, the second returns.
abbrev flaky : ℕ → Attempt ℕ ℕ
flaky (suc zero) = threw 5
flaky _ = returned 9

abbrev thrice : RetryOptions ℕ
thrice = record {
  attempts = 3;
  base_delay_ms = 100;
  max_delay_ms = some 150;
  is_retryable = λ e. true;
}

abbrev made : Response
made = record { status_code = 201; body = 7 }

abbrev overlapping : List IdempotencyEvent
overlapping = reads 1 true ∷ reads 2 true ∷ locks 1 true ∷ locks 2 true ∷ responds 1 made true ∷ []

busy : is_busy ((run_requests overlapping all_waiting).phase 1) ≡ true
unfolding run_requests
busy = refl

one_at_a_time_example : is_busy ((run_requests overlapping all_waiting).phase 2) ≡ false
one_at_a_time_example =
    one_at_a_time overlapping 1 2 (refl, (refl, tt)) (λ e. omega (arith, e)) busy

abbrev after_one : IdempotencyState
after_one = record {
  cached = some made;
  lock = none;
  runs = 1;
  phase = λ i. if i == 1 then answered (handled made) else waiting;
}

after_one-settled : (i : ℕ) → is_settled (after_one.phase i) ≡ true
after_one-settled i = elim (Bool-cases (i == 1)) [ inl e ↦ rw e refl | inr e ↦ rw e refl ]

stored_answer_replayed_example :
    ((run_requests overlapping after_one).runs ≡ 1)
    × ((step_request (reads 3 true) (run_requests overlapping after_one)).phase 3
        ≡ answered (replayed made))
stored_answer_replayed_example =
    stored_answer_replayed overlapping made after_one 3 (refl, (refl, tt))
      (record { stored = refl; settled = after_one-settled }) refl

late_lock_runs_again_example :
    ((run_requests (late_lock 1 2 made made) all_waiting).runs ≡ 2)
    × ((run_requests (late_lock 1 2 made made) all_waiting).phase 1 ≡ answered (handled made))
    × ((run_requests (late_lock 1 2 made made) all_waiting).phase 2 ≡ answered (handled made))
late_lock_runs_again_example = late_lock_runs_again 1 2 made made (λ e. omega (arith, e))

abbrev queue : Bulkhead.BulkheadState
queue = record { active = 1; waiters = 7 ∷ 8 ∷ []; woken = [] }

abbrev some_events : List Bulkhead.BulkheadEvent
some_events = Bulkhead.arrives 9 ∷ Bulkhead.ends ∷ Bulkhead.resumes ∷ []

abbrev roomy : Bulkhead.BulkheadOptions
roomy = record { max_concurrent = 1; max_queue = 3 }

-- Three calls arrive, the last two wait; then the first ends, and the second goes on.
abbrev arrivals : List Bulkhead.BulkheadEvent
arrivals = Bulkhead.arrives 6 ∷ Bulkhead.arrives 7 ∷ Bulkhead.arrives 8 ∷ []
