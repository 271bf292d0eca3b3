-- ===== src/Reliability/Idempotency.antt =====
-- src/shared/reliability/idempotency.middleware.ts for one key, cut at its awaits, so that requests
-- overlap; with the lock of src/shared/concurrency/distributed-lock.ts. A command of Redis that
-- throws is an argument of its event.
use backend_foundation.Prelude.{
  ℕ, suc, ◌==◌, ltb, true, false, Bool, ◌&&◌, Option, none, some, List, [], ◌∷◌, if◌then◌else◌,
}

-- CachedResponse
pub record Response : Type 0 where
  pub status_code : ℕ
  pub body : ℕ

pub data Reply : Type 0 where
  replayed handled : Response → Reply
  conflict : Reply

-- Where a request is: before the cache is read, before the lock, in the handler, after the answer and
-- before the release; the Boolean says whether it has acquired the lock.
pub data Phase : Type 0 where
  waiting locking : Phase
  handling : Bool → Phase
  finishing : Bool → Response → Phase
  answered : Reply → Phase

-- The two keys in Redis, how often the handler was started, and the requests by number, which is
-- also the token of their lock.
pub record IdempotencyState : Type 0 where
  pub cached : Option Response
  pub lock : Option ℕ
  pub runs : ℕ
  pub phase : ℕ → Phase

pub data IdempotencyEvent : Type 0 where
  reads locks : ℕ → Bool → IdempotencyEvent
  responds : ℕ → Response → Bool → IdempotencyEvent
  releases : ℕ → Bool → IdempotencyEvent
  lock_expires cache_expires : IdempotencyEvent

abbrev pub set_phase : ℕ → Phase → IdempotencyState → IdempotencyState
set_phase i p s = record s { phase = λ j. if j == i then p else s.phase j }

abbrev pub after_read : Option Response → Phase
after_read none = locking
after_read (some r) = answered (replayed r)

-- A read that throws is taken for a miss.
abbrev pub on_read : ℕ → Bool → Phase → IdempotencyState → IdempotencyState
on_read i ok waiting s = set_phase i (after_read (if ok then s.cached else none)) s
on_read i ok _ s = s

abbrev pub start : ℕ → Bool → IdempotencyState → IdempotencyState
start i held s = set_phase i (handling held) (record s { runs = suc s.runs })

abbrev pub if_free : ℕ → Option ℕ → IdempotencyState → IdempotencyState
if_free i none s = start i true (record s { lock = some i })
if_free i (some t) s = set_phase i (answered conflict) s

-- Where Redis fails the handler is run without a lock.
abbrev pub on_lock : ℕ → Bool → Phase → IdempotencyState → IdempotencyState
on_lock i true locking s = if_free i s.lock s
on_lock i false locking s = start i false s
on_lock i ok _ s = s

abbrev pub stores : Response → Bool → Option Response → Option Response
stores r ok before = if ltb r.status_code 400 && ok then some r else before

abbrev pub on_respond : ℕ → Response → Bool → Phase → IdempotencyState → IdempotencyState
on_respond i r ok (handling held) s =
    set_phase i (finishing held r) (record s { cached = stores r ok s.cached })
on_respond i r ok _ s = s

abbrev pub unless_own : ℕ → Option ℕ → Option ℕ
unless_own i none = none
unless_own i (some t) = if t == i then none else some t

-- The script of `releaseLock` compares the token.
abbrev pub on_release : ℕ → Bool → Phase → IdempotencyState → IdempotencyState
on_release i ok (finishing held r) s =
    set_phase i (answered (handled r))
      (record s { lock = if held && ok then unless_own i s.lock else s.lock })
on_release i ok _ s = s

unfoldable pub step_request : IdempotencyEvent → IdempotencyState → IdempotencyState
step_request (reads i ok) s = on_read i ok (s.phase i) s
step_request (locks i ok) s = on_lock i ok (s.phase i) s
step_request (responds i r ok) s = on_respond i r ok (s.phase i) s
step_request (releases i ok) s = on_release i ok (s.phase i) s
step_request lock_expires s = record s { lock = none }
step_request cache_expires s = record s { cached = none }

unfoldable pub run_requests : List IdempotencyEvent → IdempotencyState → IdempotencyState
unfolding step_request
run_requests [] s = s
run_requests (e ∷ es) s = run_requests es (step_request e s)

abbrev pub all_waiting : IdempotencyState
all_waiting = record { cached = none; lock = none; runs = 0; phase = λ i. waiting }

-- In the handler, or not yet past the release.
abbrev pub is_busy : Phase → Bool
is_busy waiting = false
is_busy locking = false
is_busy (handling held) = true
is_busy (finishing held r) = true
is_busy (answered a) = false
