-- ===== src/ExportJobs.antt =====
-- src/modules/exports: export.service.ts and export.repository.ts, on the table ExportJob, with the
-- queue that `tryEnqueue` (src/shared/queue/safe-enqueue.ts) hands jobs to. What a run of a job makes
-- (the rows, the file and its upload) is an argument: the address of the file, or that one of them
-- throws, or that the database refuses a read, which aborts the transaction of a tenant's request
-- (src/shared/tenant/tenant-context.ts) around the run.
pub mod Runs
pub mod Rows
pub mod Requests
mod Tests
use backend_foundation.Prelude.{
  ℕ, ◌==◌, Bool, true, false, not, ◌&&◌, ◌||◌, Option, none, some, List, [], ◌∷◌, map, find,
  is_some, if◌then◌else◌,
}
use backend_foundation.Auth.Data.{
  AuthError, Env, record_not_found, unique_violation, export_type_denied, export_not_found,
  export_without_tenant, export_failed,
}
use backend_foundation.Auth.Monad.{
  Result, ok, err, M, pure, throw, ◌>>=◌, ◌>>◌, gets, modify, or_throw, modify_unless,
}

pub data ExportType : Type 0 where
  users audit_log dashboard_stats user_statistics event_statistics : ExportType
  product_statistics system_statistics daily_active_users : ExportType

pub data ExportFormat : Type 0 where
  csv xlsx pdf : ExportFormat

pub data ExportJobStatus : Type 0 where
  queued processing completed failed : ExportJobStatus

pub record ExportJob : Type 0 where
  pub id : ℕ
  pub user_id : ℕ
  pub tenant_id : Option ℕ
  pub kind : ExportType
  pub format : ExportFormat
  pub status : ExportJobStatus
  pub file_url : Option ℕ
  pub error : Option AuthError
  pub completed_at : Option ℕ

-- ExportJobData
pub record ExportJobData : Type 0 where
  pub export_job_id : ℕ
  pub kind : ExportType
  pub format : ExportFormat
  pub user_id : ℕ
  pub tenant_id : Option ℕ

pub record ExportState : Type 0 where
  pub jobs : List ExportJob
  pub queue : List ExportJobData

pub record ExportInput : Type 0 where
  pub user_id : ℕ
  pub tenant_id : Option ℕ
  pub kind : ExportType
  pub format : ExportFormat

-- What the reads, the file and its upload come to: the address of the file; an error; or an error of
-- the database, which refuses one of the reads.
pub data Made : Type 0 where
  file_at : ℕ → Made
  throws query_fails : Made

-- One run of a job: when, whether it is inside the transaction of a tenant's request, and what it
-- makes.
pub record Attempt : Type 0 where
  pub now : ℕ
  pub in_tenant_context : Bool
  pub made : Made

abbrev pub made_url : Made → Option ℕ
made_url (file_at url) = some url
made_url throws = none
made_url query_fails = none

abbrev pub is_query_failure : Made → Bool
is_query_failure (file_at url) = false
is_query_failure throws = false
is_query_failure query_fails = true

-- A refused statement aborts the transaction that it stands in: that of the request, if the run is
-- inside one.
abbrev pub aborts : Attempt → Bool
aborts a = a.in_tenant_context && is_query_failure a.made

-- TENANT_UNSUPPORTED_EXPORT_TYPES
unfoldable pub is_tenant_unsupported : ExportType → Bool
is_tenant_unsupported audit_log = true
is_tenant_unsupported system_statistics = true
is_tenant_unsupported daily_active_users = true
is_tenant_unsupported _ = false

-- ExportRepository.
unfoldable pub find_job : ℕ → ExportState → Option ExportJob
find_job id s = find (λ j. j.id == id) s.jobs

unfoldable pub find_job_for_user : ℕ → ℕ → ExportState → Option ExportJob
find_job_for_user id user_id s = find (λ j. j.id == id && j.user_id == user_id) s.jobs

unfoldable pub new_job : Env → ExportInput → ExportJob
new_job env input = record {
  id = env.fresh_id;
  user_id = input.user_id;
  tenant_id = input.tenant_id;
  kind = input.kind;
  format = input.format;
  status = queued;
  file_url = none;
  error = none;
  completed_at = none;
}

unfoldable pub insert_job : ExportJob → M ExportState (Unit {0})
unfolding find_job
insert_job row s =
    modify_unless (is_some (find_job row.id s)) unique_violation
      (λ t. record t { jobs = row ∷ t.jobs }) s

unfoldable pub update_job : ℕ → (ExportJob → ExportJob) → M ExportState (Unit {0})
unfolding find_job
update_job id change s =
    modify_unless (not (is_some (find_job id s))) record_not_found
      (λ t. record t { jobs = map (λ j. if j.id == id then change j else j) t.jobs }) s

abbrev pub as_processing : ExportJob → ExportJob
as_processing j = record j { status = processing }

abbrev pub as_completed : ℕ → ℕ → ExportJob → ExportJob
as_completed now url j = record j {
  status = completed;
  file_url = some url;
  completed_at = some now;
}

abbrev pub as_failed : ℕ → AuthError → ExportJob → ExportJob
as_failed now e j = record j { status = failed; error = some e; completed_at = some now }

-- `runInTenantScope` around the reads, then the file and its upload.
unfoldable pub generate_file : ExportJobData → Attempt → M ExportState ℕ
generate_file job attempt =
    if not (is_some job.tenant_id) && not attempt.in_tenant_context
    then throw export_without_tenant
    else or_throw (made_url attempt.made) export_failed

-- `try { … } catch (e) { …; throw e }`
abbrev pub on_error {ℓ} :
    {A : Type ℓ} {S : Type 0} → (AuthError → M S (Unit {0})) → Result A × S → Result A × S
on_error handler (ok a, s) = (ok a, s)
on_error handler (err e, s) = (handler e >> throw e) s

unfoldable pub run_export : ExportJobData → Attempt → M ExportState (Unit {0})
unfolding update_job generate_file
run_export job attempt = do
  update_job job.export_job_id as_processing
  λ s.
      on_error (λ e. update_job job.export_job_id (as_failed attempt.now e))
        ((generate_file job attempt >>= λ url.
            update_job job.export_job_id (as_completed attempt.now url))
          s)

-- Of a transaction that is aborted nothing is stored: its later statements are refused too, those of
-- `markFailed` among them, and its earlier ones are undone.
abbrev pub rolled_back : Bool → M ExportState (Unit {0}) → M ExportState (Unit {0})
rolled_back false m s = m s
rolled_back true m s = ((m s).0, s)

-- ExportService.processExportJob: outside a request each statement is a transaction of its own, and
-- inside the request's all of them are one.
unfoldable pub process_export_job : ExportJobData → Attempt → M ExportState (Unit {0})
unfolding run_export
process_export_job job attempt = rolled_back (aborts attempt) (run_export job attempt)

abbrev pub job_data : ExportJob → ExportJobData
job_data j = record {
  export_job_id = j.id;
  kind = j.kind;
  format = j.format;
  user_id = j.user_id;
  tenant_id = j.tenant_id;
}

-- ExportService.requestExport; `enqueued` is the answer of `tryEnqueue`, which hands the job over
-- where it is true.
unfoldable pub request_export : Env → ExportInput → Bool → Attempt → M ExportState ExportJob
unfolding insert_job
request_export env input enqueued attempt = do
  if is_some input.tenant_id && is_tenant_unsupported input.kind
      then throw export_type_denied
      else pure tt
  insert_job (new_job env input)
  if enqueued
      then modify (λ s. record s { queue = job_data (new_job env input) ∷ s.queue })
      else process_export_job (job_data (new_job env input)) attempt
  pure (new_job env input)

unfoldable pub get_export_status : ℕ → ℕ → M ExportState ExportJob
get_export_status id user_id = do
  found ← gets (find_job_for_user id user_id)
  or_throw found export_not_found
