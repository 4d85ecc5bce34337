-- ===== src/JobStore/Queries.antt =====
-- internal/db/jobstore.go: reading rows, the audit log, and the shape that the UPDATE queries share.
-- A query is one statement; between two statements of an operation other sessions may act, which
-- `Env` does not show: an operation's statements follow one another here.
use distributed_scheduler.Prelude.{
  ℕ, ◌*◌, ◌/◌, String, Bool, true, false, Option, none, some, List, [], ◌∷◌, ◌++◌, map,
  if◌then◌else◌, str_eq, select, first, update, matching,
}
use distributed_scheduler.Models.{JobStatus, status_text, Job, second, millisecond}
use distributed_scheduler.Db.{
  Env, JobRow, Result, ok, err, foreign_key_violation, M, statement, scan_row,
}

abbrev pub or_empty : Option String → String
or_empty none = ""
or_empty (some s) = s

abbrev pub or_zero : Option ℕ → ℕ
or_zero none = 0
or_zero (some t) = t

-- A NULL column becomes the zero value of the struct's field.
unfoldable pub scan_job : JobRow → Job
scan_job r = record {
  id = r.id;
  request_id = r.request_id;
  tenant_id = r.tenant_id;
  status = r.status;
  priority = r.priority;
  payload = r.payload;
  max_retries = r.max_retries;
  retry_count = r.retry_count;
  last_error = or_empty r.last_error;
  assigned_worker = or_empty r.assigned_worker;
  lease_id = or_empty r.lease_id;
  lease_expires_at = or_zero r.lease_expires_at;
  lease_version = r.lease_version;
  created_at = r.created_at;
  updated_at = r.updated_at;
  dispatched_at = r.dispatched_at;
  started_at = r.started_at;
  completed_at = r.completed_at;
  run_timeout = r.run_timeout_ms * millisecond;
  retry_after = r.retry_after;
}

abbrev pub scan_result : Result JobRow → Result Job
scan_result (ok r) = ok (scan_job r)
scan_result (err x) = err x

abbrev pub by_id : String → JobRow → Bool
by_id job_id r = str_eq r.id job_id

abbrev pub by_request_id : String → JobRow → Bool
by_request_id request_id r = str_eq r.request_id request_id

-- The trigger jobs_updated_at.
abbrev pub touch : ℕ → JobRow → JobRow
touch now r = record r { updated_at = now }

-- UPDATE jobs SET set WHERE test: the rows affected.
abbrev pub update_jobs : Env → (ℕ → JobRow → Bool) → (ℕ → JobRow → JobRow) → M ℕ
update_jobs e test set = statement e λ n d.
    let now = e.clock n in
    (
      ok (matching (test now) d.jobs),
      record d { jobs = update (test now) (λ r. touch now (set now r)) d.jobs },
    )

-- UPDATE jobs SET set WHERE test RETURNING …: the rows as they are after it.
abbrev pub update_returning : Env → (ℕ → JobRow → Bool) → (ℕ → JobRow → JobRow) → M (List JobRow)
update_returning e test set = statement e λ n d.
    let now = e.clock n in
    (
      ok (map (λ r. touch now (set now r)) (select (test now) d.jobs)),
      record d { jobs = update (test now) (λ r. touch now (set now r)) d.jobs },
    )

abbrev pub is_some {ℓ} : {A : Type ℓ} → Option A → Bool
is_some none = false
is_some (some a) = true

-- INSERT INTO job_transitions; the job is a foreign key.
unfoldable pub record_transition :
    Env → String → JobStatus → JobStatus → String → String → M (Unit {0})
record_transition e job_id from to worker_id reason = statement e λ n d.
    if is_some (first (by_id job_id) d.jobs)
    then (
      ok tt,
      record d {
        transitions =
            d.transitions
            ++ record {
              id = e.uuid n;
              job_id = job_id;
              from_state = status_text from;
              to_state = status_text to;
              worker_id = worker_id;
              reason = reason;
              created_at = e.clock n;
            }
              ∷ [];
      },
    )
    else (err foreign_key_violation, d)

unfoldable pub get_job_by_id : Env → String → M Job
get_job_by_id e job_id =
    statement e λ n d. (scan_result (scan_row (first (by_id job_id) d.jobs)), d)

unfoldable pub get_job_by_request_id : Env → String → M Job
get_job_by_request_id e request_id =
    statement e λ n d. (scan_result (scan_row (first (by_request_id request_id) d.jobs)), d)

-- A Go duration as the `%d seconds` of an interval.
abbrev pub whole_seconds : ℕ → ℕ
whole_seconds d = d / second * second
