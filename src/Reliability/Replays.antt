-- ===== src/Reliability/Replays.antt =====
-- Requests with an idempotency key after an answer was stored, and those that overlap with it.
use backend_foundation.Prelude.{
  ℕ, ◌==◌, ◌≡◌, ◌≢◌, refl, sym, ◌∙◌, ap, ◌⊎◌, inl, inr, true, false, Bool, Bool-cases, some, List,
  [], ◌∷◌, arith, subst, ==_refl,
}
use backend_foundation.Reliability.Idempotency.{
  Response, replayed, handled, Phase, waiting, locking, handling, finishing, answered,
  IdempotencyState, IdempotencyEvent, reads, locks, responds, releases, lock_expires, cache_expires,
  after_read, on_read, on_lock, on_respond, on_release, step_request, run_requests, all_waiting,
}

-- Redis answers each read, and the stored answer does not expire.
abbrev pub CacheWorks : List IdempotencyEvent → Type 0
CacheWorks [] = Unit
CacheWorks (reads i ok ∷ es) = (ok ≡ true) × CacheWorks es
CacheWorks (cache_expires ∷ es) = ⊥
CacheWorks (_ ∷ es) = CacheWorks es

abbrev pub is_settled : Phase → Bool
is_settled waiting = true
is_settled locking = false
is_settled (handling held) = false
is_settled (finishing held r) = false
is_settled (answered a) = true

-- An answer is stored, and no request is between its read and its release.
pub record Settled (r : Response) (s : IdempotencyState) : Type 0 where
  pub stored : s.cached ≡ some r
  pub settled : (i : ℕ) → is_settled (s.phase i) ≡ true

-- What an event does then: nothing, but that a request that reads is given the stored answer.
abbrev Serves : Response → IdempotencyState → IdempotencyState → Type 0
Serves r s t =
    (t.runs ≡ s.runs)
    × (t.cached ≡ s.cached)
    × ((i : ℕ)
        → (t.phase i ≡ s.phase i) ⊎ ((s.phase i ≡ waiting) × (t.phase i ≡ answered (replayed r))))

Serves-refl : (r : Response) (s : IdempotencyState) → Serves r s s
Serves-refl r s = (refl, refl, λ i. inl refl)

read-Serves :
    (r : Response) (i : ℕ) (p : Phase) (s : IdempotencyState)
    → s.phase i ≡ p
    → s.cached ≡ some r
    → Serves r s (on_read i true p s)
read-Serves r i waiting s e stored = (
  refl,
  refl,
  λ j. elim (Bool-cases (j == i)) [
    | inl same ↦
        let at : j ≡ i = ground arith in inr (ap s.phase at ∙ e, rw same (ap after_read stored))
    | inr apart ↦ inl (rw apart refl)
  ],
)
read-Serves r i locking s e stored = Serves-refl r s
read-Serves r i (handling held) s e stored = Serves-refl r s
read-Serves r i (finishing held r') s e stored = Serves-refl r s
read-Serves r i (answered a) s e stored = Serves-refl r s

lock-Serves :
    (r : Response) (i : ℕ) (ok : Bool) (p : Phase) (s : IdempotencyState)
    → is_settled p ≡ true
    → Serves r s (on_lock i ok p s)
lock-Serves r i true waiting s e = Serves-refl r s
lock-Serves r i false waiting s e = Serves-refl r s
lock-Serves r i ok locking s e = cc
lock-Serves r i ok (handling held) s e = cc
lock-Serves r i ok (finishing held r') s e = cc
lock-Serves r i true (answered a) s e = Serves-refl r s
lock-Serves r i false (answered a) s e = Serves-refl r s

respond-Serves :
    (r r' : Response) (i : ℕ) (ok : Bool) (p : Phase) (s : IdempotencyState)
    → is_settled p ≡ true
    → Serves r s (on_respond i r' ok p s)
respond-Serves r r' i ok waiting s e = Serves-refl r s
respond-Serves r r' i ok locking s e = cc
respond-Serves r r' i ok (handling held) s e = cc
respond-Serves r r' i ok (finishing held x) s e = cc
respond-Serves r r' i ok (answered a) s e = Serves-refl r s

release-Serves :
    (r : Response) (i : ℕ) (ok : Bool) (p : Phase) (s : IdempotencyState)
    → is_settled p ≡ true
    → Serves r s (on_release i ok p s)
release-Serves r i ok waiting s e = Serves-refl r s
release-Serves r i ok locking s e = cc
release-Serves r i ok (handling held) s e = cc
release-Serves r i ok (finishing held x) s e = cc
release-Serves r i ok (answered a) s e = Serves-refl r s

step-Serves :
    (e : IdempotencyEvent) (r : Response) (s : IdempotencyState)
    → CacheWorks (e ∷ [])
    → Settled r s
    → Serves r s (step_request e s)
unfolding step_request
step-Serves (reads i ok) r s w x =
    subst (λ b. Serves r s (on_read i b (s.phase i) s)) (sym w.0)
      (read-Serves r i (s.phase i) s refl x.stored)
step-Serves (locks i ok) r s w x = lock-Serves r i ok (s.phase i) s (x.settled i)
step-Serves (responds i r' ok) r s w x = respond-Serves r r' i ok (s.phase i) s (x.settled i)
step-Serves (releases i ok) r s w x = release-Serves r i ok (s.phase i) s (x.settled i)
step-Serves lock_expires r s w x = Serves-refl r s
step-Serves cache_expires r s w x = absurd w

Serves-Settled : (r : Response) (s t : IdempotencyState) → Serves r s t → Settled r s → Settled r t
Serves-Settled r s t (runs, cached, phases) x = record {
  stored = cached ∙ x.stored;
  settled = λ i. elim (phases i) [
    | inl same ↦ ap is_settled same ∙ x.settled i
    | inr (was, now) ↦ ap is_settled now
  ];
}

Serves-trans :
    (r : Response) (s t u : IdempotencyState) → Serves r s t → Serves r t u → Serves r s u
Serves-trans r s t u (runs, cached, phases) (runs', cached', phases') = (
  runs' ∙ runs,
  cached' ∙ cached,
  λ i. elim (phases i) [
    | inl same ↦ elim (phases' i) [
      | inl same' ↦ inl (same' ∙ same)
      | inr (was, now) ↦ inr (sym same ∙ was, now)
    ]
    | inr (was, now) ↦ elim (phases' i) [
      | inl same' ↦ inr (was, same' ∙ now)
      | inr (was', now') ↦ inr (was, now')
    ]
  ],
)

CacheWorks-split :
    (e : IdempotencyEvent) (es : List IdempotencyEvent)
    → CacheWorks (e ∷ es)
    → CacheWorks (e ∷ []) × CacheWorks es
CacheWorks-split (reads i ok) es w = ((w.0, tt), w.1)
CacheWorks-split (locks i ok) es w = (tt, w)
CacheWorks-split (responds i r ok) es w = (tt, w)
CacheWorks-split (releases i ok) es w = (tt, w)
CacheWorks-split lock_expires es w = (tt, w)
CacheWorks-split cache_expires es w = absurd w

run-Serves :
    (es : List IdempotencyEvent) (r : Response) (s : IdempotencyState)
    → CacheWorks es
    → Settled r s
    → Serves r s (run_requests es s)
unfolding run_requests
run-Serves [] r s w x = Serves-refl r s
run-Serves (e ∷ es) r s w x =
    let (first, later) = CacheWorks-split e es w in
    let one = step-Serves e r s first x in
    Serves-trans r s (step_request e s) (run_requests es (step_request e s)) one
      (run-Serves es r (step_request e s) later (Serves-Settled r s (step_request e s) one x))

read_now :
    (r : Response) (i : ℕ) (p : Phase) (s : IdempotencyState)
    → s.cached ≡ some r
    → (p ≡ waiting) ⊎ (p ≡ answered (replayed r))
    → s.phase i ≡ p
    → (on_read i true p s).phase i ≡ answered (replayed r)
read_now r i p s stored (inl e) is = rw e (rw (==_refl i) (ap after_read stored))
read_now r i p s stored (inr e) is = rw e (is ∙ e)

-- Once an answer is stored and every request so far has been dealt with, the key is idempotent: while
-- the stored answer lasts and can be read, whatever later requests do in whatever order, the handler
-- is not started again, and a request that had not begun is given exactly that answer when it reads,
-- now or after the others.
pub stored_answer_replayed :
    (es : List IdempotencyEvent) (r : Response) (s : IdempotencyState) (i : ℕ)
    → CacheWorks es
    → Settled r s
    → s.phase i ≡ waiting
    → ((run_requests es s).runs ≡ s.runs)
      × ((step_request (reads i true) (run_requests es s)).phase i ≡ answered (replayed r))
unfolding step_request
stored_answer_replayed es r s i w x before =
    let (runs, cached, phases) = run-Serves es r s w x in
    let now : ((run_requests es s).phase i ≡ waiting)
        ⊎ ((run_requests es s).phase i ≡ answered (replayed r)) =
      elim (phases i) [ inl same ↦ inl (same ∙ before) | inr (was, given) ↦ inr given ] in
    (
      runs,
      read_now r i ((run_requests es s).phase i) (run_requests es s) (cached ∙ x.stored) now refl,
    )

abbrev pub late_lock : ℕ → ℕ → Response → Response → List IdempotencyEvent
late_lock i j r r' =
    reads i true
    ∷ reads j true
    ∷ locks i true
    ∷ responds i r true
    ∷ releases i true
    ∷ locks j true
    ∷ responds j r' true
    ∷ releases j true
    ∷ []

-- Two requests with one key can both run the handler, though Redis works and no lock expires: if the
-- second reads the cache before the first has answered and asks for the lock after the first has
-- released it, it starts the handler again, and both are answered as if they were the only one. The
-- answer that the first one stored is not looked at again under the lock.
pub late_lock_runs_again :
    (i j : ℕ) (r r' : Response)
    → i ≢ j
    → ((run_requests (late_lock i j r r') all_waiting).runs ≡ 2)
      × ((run_requests (late_lock i j r r') all_waiting).phase i ≡ answered (handled r))
      × ((run_requests (late_lock i j r r') all_waiting).phase j ≡ answered (handled r'))
unfolding run_requests
late_lock_runs_again i j r r' ne =
    let apart : (j == i) ≡ false = ground (arith, ne) in
    let apart' : (i == j) ≡ false = ground (arith, ne) in
    let own = ==_refl i in
    let own' = ==_refl j in
    (
      simp (apart, apart', own, own'),
      simp (apart, apart', own, own'),
      simp (apart, apart', own, own'),
    )
