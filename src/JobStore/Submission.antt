-- ===== src/JobStore/Submission.antt =====
-- CreateJob of internal/db/jobstore.go: an insert that a second request with the same id repeats.
use distributed_scheduler.Prelude.{ℕ, ◌/◌, Option, none, some, [], ◌∷◌, ◌++◌, if◌then◌else◌, first}
use distributed_scheduler.Models.{unset, pending, Job, millisecond}
use distributed_scheduler.Db.{
  Db, Env, JobRow, Result, ok, err, unique_violation, M, return, ◌>>=◌, ◌>>◌, statement,
}
use distributed_scheduler.JobStore.Queries.{
  by_id, by_request_id, is_some, record_transition, get_job_by_request_id,
}

abbrev pub new_row : Env → ℕ → Job → JobRow
new_row e n job = record {
  id = e.uuid n;
  request_id = job.request_id;
  tenant_id = job.tenant_id;
  status = pending;
  priority = job.priority;
  payload = job.payload;
  max_retries = job.max_retries;
  retry_count = 0;
  last_error = none;
  assigned_worker = none;
  lease_id = none;
  lease_expires_at = none;
  lease_version = 0;
  run_timeout_ms = job.run_timeout / millisecond;
  retry_after = none;
  created_at = e.clock n;
  updated_at = e.clock n;
  dispatched_at = none;
  started_at = none;
  completed_at = none;
}

-- INSERT … ON CONFLICT (request_id) DO NOTHING RETURNING …; the id is the primary key.
unfoldable pub insert_outcome : Env → Job → ℕ → Db → Result (Option JobRow) × Db
insert_outcome e job n d =
    if is_some (first (by_request_id job.request_id) d.jobs)
    then (ok none, d)
    else if is_some (first (by_id (e.uuid n)) d.jobs)
    then (err unique_violation, d)
    else (ok (some (new_row e n job)), record d { jobs = d.jobs ++ new_row e n job ∷ [] })

unfoldable pub insert_job : Env → Job → M (Option JobRow)
unfolding insert_outcome
insert_job e job = statement e (insert_outcome e job)

unfoldable pub created_job : Env → Job → Option JobRow → M Job
created_job e job none = get_job_by_request_id e job.request_id
created_job e job (some r) = do
  record_transition e r.id unset pending "" "job created"
  return (record job { id = r.id; created_at = r.created_at; updated_at = r.updated_at })

unfoldable pub create_job : Env → Job → M Job
unfolding created_job
create_job e job = do r ← insert_job e job; created_job e job r
