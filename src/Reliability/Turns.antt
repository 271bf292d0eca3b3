-- ===== src/Reliability/Turns.antt =====
-- The queue of src/shared/reliability/bulkhead.ts: when a waiter gets its turn.
use backend_foundation.Prelude.{ℕ, zero, suc, ◌+◌, ◌≤◌, ◌≡◌, ◌⊎◌, List, [], ◌∷◌, length}
use backend_foundation.Reliability.Bulkhead.{
  BulkheadOptions, BulkheadState, BulkheadEvent, arrives, ends, resumes, step,
}

-- How many calls end.
abbrev pub count_ends : List BulkheadEvent → ℕ
count_ends [] = 0
count_ends (arrives caller ∷ es) = count_ends es
count_ends (ends ∷ es) = suc (count_ends es)
count_ends (resumes ∷ es) = count_ends es

-- A call can end only where one runs.
abbrev pub Possible : BulkheadEvent → BulkheadState → Type 0
Possible (arrives caller) s = Unit
Possible ends s = 1 ≤ s.active
Possible resumes s = Unit

abbrev pub AllPossible : BulkheadOptions → List BulkheadEvent → BulkheadState → Type 0
AllPossible options [] s = Unit
AllPossible options (e ∷ es) s = Possible e s × AllPossible options es (step options e s)

-- Nobody waits while a slot is free; a waiter that was woken has its slot.
abbrev NoneIdle : BulkheadOptions → BulkheadState → Type 0
NoneIdle options s = (s.waiters ≡ []) ⊎ (options.max_concurrent ≤ s.active + length s.woken)

-- Whoever was woken goes on, and a call ends, so many times.
abbrev pub rounds : ℕ → List BulkheadEvent
rounds zero = []
rounds (suc n) = resumes ∷ ends ∷ rounds n
