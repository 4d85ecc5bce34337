-- ===== src/JobStore/Sweeps.antt =====
-- ReclaimExpiredJobs, CancelJob and ListJobs of internal/db/jobstore.go.
use distributed_scheduler.Prelude.{
  ℕ, String, Bool, true, false, not, ◌&&◌, Option, none, some, List, [], ◌∷◌, map, ltb, ◌==◌,
  str_eq, select, order_by, take, drop, length,
}
use distributed_scheduler.Models.{
  JobStatus, unset, pending, running, cancelled, status_text, in_flight, is_final, Job,
}
use distributed_scheduler.Db.{
  Env, JobRow, ok, cannot_be_cancelled, M, return, guard, attempt, ◌>>=◌, ◌>>◌, statement,
}
use distributed_scheduler.JobStore.Queries.{
  by_id, scan_job, update_jobs, update_returning, record_transition,
}

-- lease_expires_at < NOW(): NULL is not before anything.
abbrev pub lapsed : ℕ → Option ℕ → Bool
lapsed now none = false
lapsed now (some t) = ltb t now

abbrev pub expired : ℕ → JobRow → Bool
expired now r = in_flight r.status && lapsed now r.lease_expires_at

abbrev pub reclaim_row : ℕ → JobRow → JobRow
reclaim_row now r = record r {
  status = pending;
  assigned_worker = none;
  lease_id = none;
  lease_expires_at = none;
  retry_after = none;
}

-- The loop over the returned ids: an error of the audit log is dropped.
unfoldable pub record_reclaims : Env → List JobRow → M (Unit {0})
record_reclaims e [] = return tt
record_reclaims e (r ∷ rs) = do
  attempt (record_transition e r.id running pending "" "lease expired — reclaimed")
  record_reclaims e rs

unfoldable pub reclaim_expired_jobs : Env → M ℕ
reclaim_expired_jobs e = do
  rows ← update_returning e expired reclaim_row
  record_reclaims e rows
  return (length rows)

abbrev pub can_cancel : String → String → JobRow → Bool
can_cancel job_id tenant_id r =
    by_id job_id r && (str_eq r.tenant_id tenant_id && not (is_final r.status))

abbrev pub cancel_row : ℕ → JobRow → JobRow
cancel_row now r = record r { status = cancelled }

unfoldable pub cancel_job : Env → String → String → M (Unit {0})
cancel_job e job_id tenant_id = do
  affected ← update_jobs e (λ now. can_cancel job_id tenant_id) cancel_row
  guard (not (affected == 0)) cannot_be_cancelled
  record_transition e job_id unset cancelled "" "cancelled by client"

-- $2::text IS NULL OR status = $2
abbrev pub has_status : Option String → JobStatus → Bool
has_status none st = true
has_status (some text) st = str_eq (status_text st) text

-- ORDER BY created_at DESC
abbrev pub newer : JobRow → JobRow → Bool
newer y x = ltb x.created_at y.created_at

unfoldable pub list_jobs : Env → String → Option String → ℕ → ℕ → M (List Job)
list_jobs e tenant_id status limit offset = statement e λ n d. (
  ok (
      map scan_job (
        take limit (
          drop offset (
            order_by newer
              (select (λ r. str_eq r.tenant_id tenant_id && has_status status r.status) d.jobs))))),
  d,
)
