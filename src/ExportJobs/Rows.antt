-- ===== src/ExportJobs/Rows.antt =====
-- src/modules/exports/export.service.ts: what the row of a job tells after any runs of it.
use backend_foundation.Prelude.{
  ℕ, ◌≡◌, not, ◌&&◌, Option, none, some, List, [], ◌∷◌, or_else, is_some, if◌then◌else◌,
}
use backend_foundation.Auth.Data.{AuthError, export_without_tenant, export_failed}
use backend_foundation.ExportJobs.{
  ExportJobStatus, completed, failed, ExportJob, ExportJobData, Attempt, made_url, aborts,
}
use backend_foundation.ExportJobs.Runs.{run_makes}

-- What the newest run tells that tells anything, else what was there before.
abbrev pub newest : {A : Type 0} → (Attempt → Option A) → List Attempt → A → A
newest tells [] old = old
newest tells (a ∷ rest) old = newest tells rest (or_else (tells a) old)

-- What a run tells of the address: that of its file, if it makes one.
abbrev pub tells_url : ExportJobData → Attempt → Option (Option ℕ)
tells_url job a = elim (run_makes job a) [ none ↦ none | some url ↦ some (some url) ]

-- Of the error: the one that it fails with, unless its transaction is aborted.
abbrev pub tells_error : ExportJobData → Attempt → Option (Option AuthError)
tells_error job a =
    if aborts a
    then none
    else if not (is_some job.tenant_id) && not a.in_tenant_context
    then some (some export_without_tenant)
    else elim (made_url a.made) [ none ↦ some (some export_failed) | some url ↦ none ]

-- Of the end: how and when it ended, unless its transaction is aborted.
abbrev pub tells_status : ExportJobData → Attempt → Option ExportJobStatus
tells_status job a =
    if aborts a
    then none
    else elim (run_makes job a) [ none ↦ some failed | some url ↦ some completed ]

abbrev pub tells_time : Attempt → Option (Option ℕ)
tells_time a = if aborts a then none else some (some a.now)

-- The row, field by field.
pub record ToldBy (job : ExportJobData) (attempts : List Attempt) (j k : ExportJob) : Type 0 where
  pub file_url : k.file_url ≡ newest (tells_url job) attempts j.file_url
  pub error : k.error ≡ newest (tells_error job) attempts j.error
  pub status : k.status ≡ newest (tells_status job) attempts j.status
  pub completed_at : k.completed_at ≡ newest tells_time attempts j.completed_at
