-- ===== src/ExportJobs/Requests.antt =====
-- src/modules/exports/export.service.ts: the request of an export, and its status.
use backend_foundation.Prelude.{ℕ, ==_refl, ◌≡◌, refl, false, ◌&&◌, none, some, ◌∷◌, is_some}
use backend_foundation.Auth.Data.{AuthError, Env}
use backend_foundation.Auth.Monad.{Result, ok, err, continue, pure}
use backend_foundation.ExportJobs.{
  ExportJob, ExportState, ExportInput, Attempt, is_tenant_unsupported, find_job, new_job,
  insert_job, job_data, process_export_job, request_export,
}
use backend_foundation.ExportJobs.Runs.{run_makes, run_row, processed, processed-result}

module _ (env : Env) (input : ExportInput) (a : Attempt) (s : ExportState) where
  abbrev created : ExportState
  created = record s { jobs = new_job env input ∷ s.jobs }

  created-found : find_job (new_job env input).id created ≡ some (new_job env input)
  unfolding find_job
  created-found = rw (==_refl (new_job env input).id) refl

  abbrev processed_now : Result (Unit {0}) × ExportState
  processed_now = process_export_job (job_data (new_job env input)) a created

  -- A request whose job no queue takes is the run itself, and the answer is the row as it was made.
  inline-run :
      find_job (new_job env input).id s ≡ none
      → (is_some input.tenant_id && is_tenant_unsupported input.kind) ≡ false
      → request_export env input false a s
        ≡ continue (λ done. pure (new_job env input)) processed_now.0 processed_now.1
  unfolding request_export insert_job
  inline-run free allowed = rw (allowed, free) refl

  after-row :
      (id : ℕ) (r : Result (Unit {0}) × ExportState) {k : ExportJob}
      → find_job id r.1 ≡ some k
      → find_job id (continue (λ done. pure (new_job env input)) r.0 r.1).1 ≡ some k
  after-row id (ok done, t) e = e
  after-row id (err why, t) e = e

  after-ok :
      (r : Result (Unit {0}) × ExportState)
      → r.0 ≡ ok tt
      → (continue (λ (done : Unit {0}). pure (new_job env input)) r.0 r.1).0
        ≡ ok (new_job env input)
  after-ok (ok done, t) e = refl
  after-ok (err why, t) e = absurd (cc e)

  after-err :
      (r : Result (Unit {0}) × ExportState) {e : AuthError}
      → r.0 ≡ err e
      → (continue (λ (done : Unit {0}). pure (new_job env input)) r.0 r.1).0 ≡ err e
  after-err (ok done, t) f = absurd (cc f)
  after-err (err why, t) f = cc f

  -- A request whose job no queue takes runs the job at once: the row is what this run leaves; the request is answered with the row as it was made, still queued, where the run
  -- makes a file, and fails where it does not.
  pub request_falls_back :
      find_job (new_job env input).id s ≡ none
      → (is_some input.tenant_id && is_tenant_unsupported input.kind) ≡ false
      → (find_job (new_job env input).id (request_export env input false a s).1
          ≡ some (run_row (job_data (new_job env input)) a (new_job env input)))
        × ((url : ℕ)
            → run_makes (job_data (new_job env input)) a ≡ some url
            → (request_export env input false a s).0 ≡ ok (new_job env input))
        × (run_makes (job_data (new_job env input)) a ≡ none
            → (e : AuthError) × ((request_export env input false a s).0 ≡ err e))
  request_falls_back free allowed =
      let job = job_data (new_job env input) in
      let same = inline-run free allowed in
      let row = processed job a created created-found in
      let (succeeds, fails) = processed-result job a created created-found in
      (
        rw same (after-row (new_job env input).id processed_now row),
        λ url e. rw same (after-ok processed_now (succeeds url e)),
        λ e. let (why, f) = fails e in (why, rw same (after-err processed_now f)),
      )
