-- ===== src/ExportJobs/Tests.antt =====
-- Runs of src/modules/exports/export.service.ts.
use backend_foundation.Prelude.{false, some, [], ◌∷◌}
use backend_foundation.Auth.Sample.{at}
use backend_foundation.ExportJobs.{
  ExportJob, ExportState, ExportInput, Attempt, file_at, query_fails, users, csv, new_job,
}

abbrev input : ExportInput
input = record { user_id = 1; tenant_id = some 70; kind = users; format = csv }

abbrev empty : ExportState
empty = record { jobs = []; queue = [] }

abbrev job : ExportJob
job = new_job (at 5) input

abbrev state : ExportState
state = record { jobs = job ∷ []; queue = [] }

abbrev uploaded : Attempt
uploaded = record { now = 20; in_tenant_context = false; made = file_at 900 }

abbrev broken : Attempt
broken = record { now = 30; in_tenant_context = false; made = query_fails }
