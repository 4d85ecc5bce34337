-- ===== src/JobStore/Results.antt =====
-- MarkJobRunning, CompleteJob and FailJob of internal/db/jobstore.go: what a worker reports under its
-- lease.
use distributed_scheduler.Prelude.{
  ℕ, ◌+◌, String, Bool, false, not, ◌&&◌, Option, none, some, List, [], ◌∷◌, leb, ◌==◌,
  if◌then◌else◌, str_eq, first,
}
use distributed_scheduler.Models.{
  pending, dispatched, running, succeeded, dead_letter, is_dispatched, in_flight,
}
use distributed_scheduler.Db.{
  Env, JobRow, Result, ok, err, stale_lease, M, throw, guard, draw, ◌>>=◌, ◌>>◌, statement,
  scan_row,
}
use distributed_scheduler.Retry.{calculate_backoff}
use distributed_scheduler.JobStore.Queries.{
  by_id, update_jobs, update_returning, whole_seconds, record_transition,
}

-- assigned_worker = $2: NULL equals nothing.
abbrev pub assigned_to : String → Option String → Bool
assigned_to worker_id none = false
assigned_to worker_id (some w) = str_eq w worker_id

-- id = … AND assigned_worker = … AND lease_version = …
abbrev pub holds_lease : String → String → ℕ → JobRow → Bool
holds_lease job_id worker_id lease_version r =
    by_id job_id r && (assigned_to worker_id r.assigned_worker && r.lease_version == lease_version)

abbrev pub can_start : String → String → ℕ → JobRow → Bool
can_start job_id worker_id lease_version r =
    holds_lease job_id worker_id lease_version r && is_dispatched r.status

abbrev pub can_finish : String → String → ℕ → JobRow → Bool
can_finish job_id worker_id lease_version r =
    holds_lease job_id worker_id lease_version r && in_flight r.status

abbrev pub start_row : ℕ → JobRow → JobRow
start_row now r = record r { status = running; started_at = some now }

unfoldable pub mark_job_running : Env → String → String → ℕ → M (Unit {0})
mark_job_running e job_id worker_id lease_version = do
  affected ← update_jobs e (λ now. can_start job_id worker_id lease_version) start_row
  guard (not (affected == 0)) stale_lease
  record_transition e job_id dispatched running worker_id "job started"

-- COALESCE(started_at, NOW())
abbrev pub or_now : ℕ → Option ℕ → ℕ
or_now now none = now
or_now now (some t) = t

abbrev pub complete_row : ℕ → JobRow → JobRow
complete_row now r = record r {
  status = succeeded;
  started_at = some (or_now now r.started_at);
  completed_at = some now;
}

unfoldable pub complete_job : Env → String → String → ℕ → M (Unit {0})
complete_job e job_id worker_id lease_version = do
  affected ← update_jobs e (λ now. can_finish job_id worker_id lease_version) complete_row
  guard (not (affected == 0)) stale_lease
  record_transition e job_id running succeeded worker_id "job completed"

-- retry_count + 1 >= max_retries
abbrev pub exhausted : JobRow → Bool
exhausted r = leb r.max_retries (r.retry_count + 1)

abbrev pub fail_row : String → ℕ → ℕ → JobRow → JobRow
fail_row reason backoff now r = record r {
  status = if exhausted r then dead_letter else pending;
  retry_count = r.retry_count + 1;
  last_error = some reason;
  assigned_worker = none;
  lease_id = none;
  lease_expires_at = none;
  retry_after = if exhausted r then none else some (now + backoff);
}

abbrev pub retry_count_of : Result JobRow → Result ℕ
retry_count_of (ok r) = ok r.retry_count
retry_count_of (err x) = err x

unfoldable pub read_retry_count : Env → String → M ℕ
read_retry_count e job_id =
    statement e λ n d. (retry_count_of (scan_row (first (by_id job_id) d.jobs)), d)

unfoldable pub record_failure : Env → String → String → String → List JobRow → M (Unit {0})
record_failure e job_id worker_id reason [] = throw stale_lease
record_failure e job_id worker_id reason (r ∷ _) =
    record_transition e job_id running r.status worker_id reason

unfoldable pub update_failed : Env → String → String → String → ℕ → ℕ → M (Unit {0})
update_failed e job_id worker_id reason lease_version backoff = do
  rows ←
      update_returning e (λ now. can_finish job_id worker_id lease_version)
        (fail_row reason backoff)
  record_failure e job_id worker_id reason rows

-- The backoff is computed from the count that a first statement reads.
unfoldable pub fail_job : Env → String → String → String → ℕ → ℕ → ℕ → M (Unit {0})
fail_job e job_id worker_id reason lease_version retry_base_delay retry_max_delay = do
  current_retry ← read_retry_count e job_id
  rand ← draw e
  let backoff =
      calculate_backoff e.to_float64 e.to_int64 rand current_retry retry_base_delay retry_max_delay
  update_failed e job_id worker_id reason lease_version (whole_seconds backoff)
