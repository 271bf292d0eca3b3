-- ===== src/Reliability/IdempotencyLaws.antt =====
-- What overlapping requests with one idempotency key can and cannot do.
use backend_foundation.Prelude.{
  ℕ, suc, ◌==◌, ◌≡◌, ◌≢◌, refl, sym, ◌∙◌, ap, inl, inr, true, false, Bool, ◌&&◌, Bool-cases, Option,
  none, some, List, [], ◌∷◌, arith, if◌then◌else◌, subst,
}
use backend_foundation.Reliability.Idempotency.{
  Response, handled, conflict, Phase, waiting, locking, handling, finishing, answered,
  IdempotencyState, IdempotencyEvent, reads, locks, responds, releases, lock_expires, cache_expires,
  set_phase, after_read, on_read, if_free, on_lock, stores, on_respond, unless_own, on_release,
  step_request, run_requests, all_waiting, is_busy,
}

-- Redis answers each request for the lock, and no lock expires.
abbrev pub LockWorks : List IdempotencyEvent → Type 0
LockWorks [] = Unit
LockWorks (locks i ok ∷ es) = (ok ≡ true) × LockWorks es
LockWorks (lock_expires ∷ es) = ⊥
LockWorks (_ ∷ es) = LockWorks es

-- Whoever is busy has the lock.
abbrev Exclusive : IdempotencyState → Type 0
Exclusive s = (i : ℕ) → is_busy (s.phase i) ≡ true → s.lock ≡ some i

set_phase-Exclusive :
    (i : ℕ) (p : Phase) (s : IdempotencyState)
    → (is_busy p ≡ true → s.lock ≡ some i)
    → ((j : ℕ) → j ≢ i → is_busy (s.phase j) ≡ true → s.lock ≡ some j)
    → Exclusive (set_phase i p s)
set_phase-Exclusive i p s own other j busy = elim (Bool-cases (j == i)) [
  | inl e ↦ let same : j ≡ i = ground arith in own (rw e at busy) ∙ ap some (sym same)
  | inr e ↦ let apart : j ≢ i = λ same. ground (arith, same, e) in other j apart (rw e at busy)
]

idle-Exclusive :
    (i : ℕ) (p : Phase) (s : IdempotencyState)
    → is_busy p ≡ false
    → Exclusive s
    → Exclusive (set_phase i p s)
idle-Exclusive i p s idle x = set_phase-Exclusive i p s (λ busy. cc) (λ j ne busy. x j busy)

read-Exclusive :
    (i : ℕ) (ok : Bool) (p : Phase) (s : IdempotencyState)
    → Exclusive s
    → Exclusive (on_read i ok p s)
read-Exclusive i ok waiting s x =
    idle-Exclusive i _ s (after_read-idle (if ok then s.cached else none)) x
  where
    after_read-idle : (o : Option Response) → is_busy (after_read o) ≡ false
    after_read-idle none = refl
    after_read-idle (some r) = refl
read-Exclusive i ok locking s x = x
read-Exclusive i ok (handling held) s x = x
read-Exclusive i ok (finishing held r) s x = x
read-Exclusive i ok (answered a) s x = x

if_free-Exclusive :
    (i : ℕ) (o : Option ℕ) (s : IdempotencyState)
    → s.lock ≡ o
    → Exclusive s
    → Exclusive (if_free i o s)
if_free-Exclusive i none s e x =
    set_phase-Exclusive i (handling true) (record s { lock = some i; runs = suc s.runs })
      (λ busy. refl) (λ j ne busy. absurd (cc (x j busy, e)))
if_free-Exclusive i (some t) s e x = idle-Exclusive i (answered conflict) s refl x

lock-Exclusive :
    (i : ℕ) (p : Phase) (s : IdempotencyState) → Exclusive s → Exclusive (on_lock i true p s)
lock-Exclusive i waiting s x = x
lock-Exclusive i locking s x = if_free-Exclusive i s.lock s refl x
lock-Exclusive i (handling held) s x = x
lock-Exclusive i (finishing held r) s x = x
lock-Exclusive i (answered a) s x = x

respond-Exclusive :
    (i : ℕ) (r : Response) (ok : Bool) (p : Phase) (s : IdempotencyState)
    → s.phase i ≡ p
    → Exclusive s
    → Exclusive (on_respond i r ok p s)
respond-Exclusive i r ok waiting s e x = x
respond-Exclusive i r ok locking s e x = x
respond-Exclusive i r ok (handling held) s e x =
    set_phase-Exclusive i (finishing held r) (record s { cached = stores r ok s.cached })
      (λ busy. x i (ap is_busy e)) (λ j ne busy. x j busy)
respond-Exclusive i r ok (finishing held r') s e x = x
respond-Exclusive i r ok (answered a) s e x = x

release-Exclusive :
    (i : ℕ) (ok : Bool) (p : Phase) (s : IdempotencyState)
    → s.phase i ≡ p
    → Exclusive s
    → Exclusive (on_release i ok p s)
release-Exclusive i ok waiting s e x = x
release-Exclusive i ok locking s e x = x
release-Exclusive i ok (handling held) s e x = x
release-Exclusive i ok (finishing held r) s e x =
    set_phase-Exclusive i (answered (handled r))
      (record s { lock = if held && ok then unless_own i s.lock else s.lock }) (λ busy. cc)
      (λ j ne busy.
        let mine = x i (ap is_busy e) in
        let theirs = x j busy in let same : j ≡ i = cc (mine, theirs) in absurd (ne same))
release-Exclusive i ok (answered a) s e x = x

step-Exclusive :
    (e : IdempotencyEvent) (s : IdempotencyState)
    → LockWorks (e ∷ [])
    → Exclusive s
    → Exclusive (step_request e s)
unfolding step_request
step-Exclusive (reads i ok) s w x = read-Exclusive i ok (s.phase i) s x
step-Exclusive (locks i ok) s w x =
    subst (λ b. Exclusive (on_lock i b (s.phase i) s)) (sym w.0) (lock-Exclusive i (s.phase i) s x)
step-Exclusive (responds i r ok) s w x = respond-Exclusive i r ok (s.phase i) s refl x
step-Exclusive (releases i ok) s w x = release-Exclusive i ok (s.phase i) s refl x
step-Exclusive lock_expires s w x = absurd w
step-Exclusive cache_expires s w x = x

LockWorks-split :
    (e : IdempotencyEvent) (es : List IdempotencyEvent)
    → LockWorks (e ∷ es)
    → LockWorks (e ∷ []) × LockWorks es
LockWorks-split (reads i ok) es w = (tt, w)
LockWorks-split (locks i ok) es w = ((w.0, tt), w.1)
LockWorks-split (responds i r ok) es w = (tt, w)
LockWorks-split (releases i ok) es w = (tt, w)
LockWorks-split lock_expires es w = absurd w
LockWorks-split cache_expires es w = (tt, w)

run-Exclusive :
    (es : List IdempotencyEvent) (s : IdempotencyState)
    → LockWorks es
    → Exclusive s
    → Exclusive (run_requests es s)
unfolding run_requests
run-Exclusive [] s w x = x
run-Exclusive (e ∷ es) s w x =
    let (first, later) = LockWorks-split e es w in
    run-Exclusive es (step_request e s) later (step-Exclusive e s first x)

-- While Redis answers the requests for the lock and no lock expires, at most one of the requests with
-- one key is in the handler, in whatever order they read, lock, answer and release.
pub one_at_a_time :
    (es : List IdempotencyEvent) (i j : ℕ)
    → LockWorks es
    → i ≢ j
    → is_busy ((run_requests es all_waiting).phase i) ≡ true
    → is_busy ((run_requests es all_waiting).phase j) ≡ false
one_at_a_time es i j w ne busy_i =
    let x = run-Exclusive es all_waiting w (λ k busy. cc) in
    elim (Bool-cases (is_busy ((run_requests es all_waiting).phase j))) [
      | inl busy_j ↦
          let mine = x i busy_i in
          let theirs = x j busy_j in let same : i ≡ j = cc (mine, theirs) in absurd (ne same)
      | inr idle ↦ idle
    ]
