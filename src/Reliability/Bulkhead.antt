-- ===== src/Reliability/Bulkhead.antt =====
-- src/shared/reliability/bulkhead.ts for one key, cut at its two awaits: a call arrives; a running
-- call ends and wakes the first waiter; later the waiter that was woken goes on.
use backend_foundation.Prelude.{
  ℕ, ◌+◌, ◌-◌, ◌≤◌, ◌≡◌, leb, refl, List, [], ◌∷◌, ◌++◌, length, arith, ap, if◌then◌else◌,
}

pub record BulkheadOptions : Type 0 where
  pub max_concurrent : ℕ
  pub max_queue : ℕ

-- Waiters are named by numbers; `woken` are those whose promise is resolved and that have not gone
-- on yet.
pub record BulkheadState : Type 0 where
  pub active : ℕ
  pub waiters : List ℕ
  pub woken : List ℕ

abbrev pub new_bulkhead : BulkheadState
new_bulkhead = record { active = 0; waiters = []; woken = [] }

pub data BulkheadAnswer : Type 0 where
  runs waits rejected : BulkheadAnswer

unfoldable pub arrive : BulkheadOptions → ℕ → BulkheadState → BulkheadAnswer × BulkheadState
arrive options caller s =
    if leb options.max_concurrent s.active
    then if leb options.max_queue (length s.waiters)
      then (rejected, s)
      else (waits, record s { waiters = s.waiters ++ caller ∷ [] })
    else (runs, record s { active = s.active + 1 })

abbrev wake : List ℕ → BulkheadState → BulkheadState
wake [] s = s
wake (w ∷ ws) s = record s { waiters = ws; woken = s.woken ++ w ∷ [] }

-- The `finally` block of a call that ran.
unfoldable pub release : BulkheadState → BulkheadState
release s = wake s.waiters (record s { active = s.active - 1 })

abbrev pub resume_of : List ℕ → BulkheadState → BulkheadState
resume_of [] s = s
resume_of (w ∷ ws) s = record s { active = s.active + 1; woken = ws }

unfoldable pub resume : BulkheadState → BulkheadState
resume s = resume_of s.woken s

pub data BulkheadEvent : Type 0 where
  arrives : ℕ → BulkheadEvent
  ends resumes : BulkheadEvent

unfoldable pub step : BulkheadOptions → BulkheadEvent → BulkheadState → BulkheadState
step options (arrives caller) s = (arrive options caller s).1
step options ends s = release s
step options resumes s = resume s

unfoldable pub run : BulkheadOptions → List BulkheadEvent → BulkheadState → BulkheadState
run options [] s = s
run options (e ∷ es) s = run options es (step options e s)

-- Every event can happen in its turn, and nobody arrives while a waiter that was woken has not gone
-- on.
abbrev Prompt : BulkheadEvent → BulkheadState → Type 0
Prompt (arrives caller) s = s.woken ≡ []
Prompt ends s = 1 ≤ s.active
Prompt resumes s = Unit

abbrev pub AllPrompt : BulkheadOptions → List BulkheadEvent → BulkheadState → Type 0
AllPrompt options [] s = Unit
AllPrompt options (e ∷ es) s = Prompt e s × AllPrompt options es (step options e s)

pub length-snoc : (xs : List ℕ) (x : ℕ) → length (xs ++ x ∷ []) ≡ length xs + 1
length-snoc [] x = refl
length-snoc (y ∷ xs) x = ground (arith, length-snoc xs x)

wake-queue :
    (ws : List ℕ) (s : BulkheadState) → s.waiters ≡ ws → length (wake ws s).waiters ≤ length ws
wake-queue [] s e = ground (arith, ap length e)
wake-queue (w ∷ ws) s e = omega arith

pub resume-queue : (ws : List ℕ) (s : BulkheadState) → (resume_of ws s).waiters ≡ s.waiters
resume-queue [] s = refl
resume-queue (w ∷ ws) s = refl

step-queue :
    (options : BulkheadOptions) (e : BulkheadEvent) (s : BulkheadState)
    → length s.waiters ≤ options.max_queue
    → length (step options e s).waiters ≤ options.max_queue
unfolding step arrive release resume
step-queue options (arrives caller) s h = ground (arith, length-snoc s.waiters caller)
step-queue options ends s h =
    omega (arith, wake-queue s.waiters (record s { active = s.active - 1 }) refl)
step-queue options resumes s h = omega (arith, ap length (resume-queue s.woken s))

-- Whatever happens in whatever order, no more calls wait than the queue has room for, if that was
-- so before.
pub queue_bounded :
    (options : BulkheadOptions) (es : List BulkheadEvent) (s : BulkheadState)
    → length s.waiters ≤ options.max_queue
    → length (run options es s).waiters ≤ options.max_queue
unfolding run
queue_bounded options [] s h = h
queue_bounded options (e ∷ es) s h =
    queue_bounded options es (step options e s) (step-queue options e s h)

abbrev taken : BulkheadState → ℕ
taken s = s.active + length s.woken

wake-taken : (ws : List ℕ) (s : BulkheadState) → taken (wake ws s) ≤ taken s + 1
wake-taken [] s = omega arith
wake-taken (w ∷ ws) s = omega (arith, length-snoc s.woken w)

resume-taken : (ws : List ℕ) (s : BulkheadState) → s.woken ≡ ws → taken (resume_of ws s) ≤ taken s
resume-taken [] s e = omega arith
resume-taken (w ∷ ws) s e = omega (arith, ap length e)

step-taken :
    (options : BulkheadOptions) (e : BulkheadEvent) (s : BulkheadState)
    → Prompt e s
    → taken s ≤ options.max_concurrent
    → taken (step options e s) ≤ options.max_concurrent
unfolding step arrive release resume
step-taken options (arrives caller) s p h = ground (arith, ap length p)
step-taken options ends s p h =
    omega (arith, wake-taken s.waiters (record s { active = s.active - 1 }), p)
step-taken options resumes s p h = omega (arith, resume-taken s.woken s refl)

-- If no call arrives between the end of a call and the moment when the waiter that it woke goes on,
-- no more calls run at once than `maxConcurrent`, counting those that were woken.
pub capacity_kept :
    (options : BulkheadOptions) (es : List BulkheadEvent) (s : BulkheadState)
    → AllPrompt options es s
    → s.active + length s.woken ≤ options.max_concurrent
    → (run options es s).active + length (run options es s).woken ≤ options.max_concurrent
unfolding run
capacity_kept options [] s p h = h
capacity_kept options (e ∷ es) s p h =
    capacity_kept options es (step options e s) p.1 (step-taken options e s p.0 h)

-- A call that arrives in that moment takes the slot of the waiter that was woken, and the waiter
-- goes on as well: one more call runs than `maxConcurrent`.
pub newcomer_overshoots :
    (options : BulkheadOptions) (caller first : ℕ) (rest : List ℕ) (s : BulkheadState)
    → 1 ≤ options.max_concurrent
    → s.active ≡ options.max_concurrent
    → s.waiters ≡ first ∷ rest
    → s.woken ≡ []
    → (run options (ends ∷ arrives caller ∷ resumes ∷ []) s).active ≡ options.max_concurrent + 1
unfolding run step arrive release resume
newcomer_overshoots options caller first rest s pos full waiting none_woken =
    rw (waiting, none_woken) (ground arith)
