-- ===== src/ExportJobs/Runs.antt =====
-- src/modules/exports/export.service.ts: the runs of an export job, by the worker and again.
use backend_foundation.Prelude.{
  ℕ, ◌==◌, ◌≡◌, refl, ap, ◌∙◌, Bool, true, false, not, ◌&&◌, Option, none, some, List, [], ◌∷◌,
  find_sound, is_some, Bool-cases, Option-cases, inl, inr, if◌then◌else◌,
}
use backend_foundation.Auth.Data.{AuthError, export_without_tenant, export_failed}
use backend_foundation.Auth.Monad.{Result, ok, err, M}
use backend_foundation.Gate.KeySteps.{find-map}
use backend_foundation.ExportJobs.{
  made_url, aborts, rolled_back, run_export, ExportJob, ExportJobData, ExportState, Attempt,
  find_job, update_job, as_processing, as_completed, as_failed, on_error, generate_file,
  process_export_job,
}

unfoldable pub run_attempts : ExportJobData → List Attempt → ExportState → ExportState
run_attempts job [] s = s
run_attempts job (a ∷ rest) s = run_attempts job rest (process_export_job job a s).1

-- What a run makes of a job's row, by itself.
unfoldable pub attempt_row : ExportJobData → Attempt → ExportJob → ExportJob
attempt_row job a j =
    if not (is_some job.tenant_id) && not a.in_tenant_context
    then as_failed a.now export_without_tenant j
    else elim (made_url a.made) [
      | none ↦ as_failed a.now export_failed j
      | some url ↦ as_completed a.now url j
    ]

-- The address that a run makes, if nothing of it throws.
abbrev pub run_makes : ExportJobData → Attempt → Option ℕ
run_makes job a =
    if not (is_some job.tenant_id) && not a.in_tenant_context then none else made_url a.made

updated-id :
    (id : ℕ) (change : ExportJob → ExportJob)
    → ((x : ExportJob) → (change x).id ≡ x.id)
    → (x : ExportJob) → ((if x.id == id then change x else x).id == id) ≡ (x.id == id)
updated-id id change keeps x = elim (Bool-cases (x.id == id)) [
  | inl e ↦ rw e (ap (λ n. n == id) (keeps x) ∙ e)
  | inr e ↦ rw e e
]

updated :
    (id : ℕ) (change : ExportJob → ExportJob) (s : ExportState) {j : ExportJob}
    → ((x : ExportJob) → (change x).id ≡ x.id)
    → find_job id s ≡ some j
    → ((update_job id change s).0 ≡ ok tt)
      × (find_job id (update_job id change s).1 ≡ some (change j))
unfolding update_job find_job
updated id change s {j} keeps e =
    let hit : (j.id == id) ≡ true = (find_sound (λ x. x.id == id) s.jobs e).1 in
    let mapped =
      find-map (λ x. x.id == id) (λ x. if x.id == id then change x else x) s.jobs
        (updated-id id change keeps) e in
    (rw e refl, rw e (mapped ∙ ap (λ x. some x) (rw hit refl)))

on_error-ok :
    (handler : AuthError → M ExportState (Unit {0})) (r : Result (Unit {0}) × ExportState)
    → r.0 ≡ ok tt
    → on_error handler r ≡ r
on_error-ok handler (ok done, s) e = refl
on_error-ok handler (err why, s) e = absurd (cc e)

ran :
    (job : ExportJobData) (a : Attempt) (s : ExportState) {j : ExportJob}
    → find_job job.export_job_id s ≡ some j
    → find_job job.export_job_id (run_export job a s).1 ≡ some (attempt_row job a (as_processing j))
unfolding run_export attempt_row generate_file
ran job a s {j} e =
    let id = job.export_job_id in
    let (done, there) = updated id as_processing s (λ x. refl) e in
    let t = (update_job id as_processing s).1 in
    elim (Bool-cases (not (is_some job.tenant_id) && not a.in_tenant_context)) [
      | inl f ↦
          let (finished, row) =
            updated id (as_failed a.now export_without_tenant) t (λ x. refl) there in
          rw (done, f, finished) row
      | inr f ↦ elim (Option-cases (made_url a.made)) [
        | inl g ↦
            let (finished, row) = updated id (as_failed a.now export_failed) t (λ x. refl) there in
            rw (done, f, g, finished) row
        | inr (url, g) ↦
            let (finished, row) = updated id (as_completed a.now url) t (λ x. refl) there in
            rw (done, f, g, on_error-ok _ (update_job id (as_completed a.now url) t) finished) row
      ]
    ]

-- What a run leaves of a job's row.
abbrev pub run_row : ExportJobData → Attempt → ExportJob → ExportJob
run_row job a j = if aborts a then j else attempt_row job a (as_processing j)

-- One run changes the row of its job as `run_row` says.
pub processed :
    (job : ExportJobData) (a : Attempt) (s : ExportState) {j : ExportJob}
    → find_job job.export_job_id s ≡ some j
    → find_job job.export_job_id (process_export_job job a s).1 ≡ some (run_row job a j)
unfolding process_export_job
processed job a s e = elim (Bool-cases (aborts a)) [
  | inl undone ↦ rw undone e
  | inr kept ↦ rw kept (ran job a s e)
]

ran-result :
    (job : ExportJobData) (a : Attempt) (s : ExportState) {j : ExportJob}
    → find_job job.export_job_id s ≡ some j
    → ((url : ℕ) → run_makes job a ≡ some url → (run_export job a s).0 ≡ ok tt)
      × (run_makes job a ≡ none → (e : AuthError) × ((run_export job a s).0 ≡ err e))
unfolding run_export generate_file
ran-result job a s {j} e =
    let id = job.export_job_id in
    let (done, there) = updated id as_processing s (λ x. refl) e in
    let t = (update_job id as_processing s).1 in
    elim (Bool-cases (not (is_some job.tenant_id) && not a.in_tenant_context)) [
      | inl f ↦
          let (finished, row) =
            updated id (as_failed a.now export_without_tenant) t (λ x. refl) there in
          (
            λ url g. absurd (cc (rw f at g)),
            λ g. (export_without_tenant, rw (done, f, finished) refl),
          )
      | inr f ↦ elim (Option-cases (made_url a.made)) [
        | inl g ↦
            let (finished, row) = updated id (as_failed a.now export_failed) t (λ x. refl) there in
            (
              λ url h. absurd (cc (rw (f, g) at h)),
              λ h. (export_failed, rw (done, f, g, finished) refl),
            )
        | inr (url, g) ↦
            let (finished, row) = updated id (as_completed a.now url) t (λ x. refl) there in
            (
              λ other h.
                  rw (done, f, g, on_error-ok _ (update_job id (as_completed a.now url) t) finished)
                    finished,
              λ h. absurd (cc (rw (f, g) at h)),
            )
      ]
    ]

rolled_back-answer :
    (b : Bool) (m : M ExportState (Unit {0})) (s : ExportState) → (rolled_back b m s).0 ≡ (m s).0
rolled_back-answer false m s = refl
rolled_back-answer true m s = refl

-- The run itself returns where it makes a file, and throws where it does not.
pub processed-result :
    (job : ExportJobData) (a : Attempt) (s : ExportState) {j : ExportJob}
    → find_job job.export_job_id s ≡ some j
    → ((url : ℕ) → run_makes job a ≡ some url → (process_export_job job a s).0 ≡ ok tt)
      × (run_makes job a ≡ none → (e : AuthError) × ((process_export_job job a s).0 ≡ err e))
unfolding process_export_job
processed-result job a s e =
    let (succeeds, fails) = ran-result job a s e in
    let same = rolled_back-answer (aborts a) (run_export job a) s in
    (λ url m. same ∙ succeeds url m, λ m. let (why, f) = fails m in (why, same ∙ f))
