-- ===== src/Server/WorkerRpcs.antt =====
-- The worker-facing handlers of scheduler/scheduler.go.
pub mod Verdicts
use distributed_scheduler.Prelude.{
  ℕ, ◌/◌, String, Bool, true, false, Option, none, some, List, [], ◌∷◌, if◌then◌else◌, str_eq,
}
use distributed_scheduler.Models.{Worker, active, Job, is_dead_letter, millisecond}
use distributed_scheduler.Config.{Config}
use distributed_scheduler.Db.{Env, JobRow, Error, Result, ok, err, M, return, attempt, ◌>>=◌, ◌>>◌}
use distributed_scheduler.JobStore.Queries.{get_job_by_id, or_zero}
use distributed_scheduler.JobStore.Results.{complete_job, fail_job}
use distributed_scheduler.JobStore.Renewal.{renew_query}
use distributed_scheduler.WorkerStore.{register_worker, record_heartbeat, drain_worker}
use distributed_scheduler.Server.Rpc.{Message, text, error_text}

pub record RegisterResponse : Type 0 where
  pub success : Bool
  pub worker_id : String
  pub message : Message

register_reply : Worker → Result Worker → RegisterResponse
register_reply worker (ok w) = record {
  success = true;
  worker_id = worker.id;
  message = text "registered";
}
register_reply worker (err x) = record { success = false; worker_id = ""; message = error_text x }

-- RegisterWorker. The times, the status and the count of jobs that the request does not carry are
-- left to the database.
unfoldable pub handle_register : Env → Worker → M RegisterResponse
unfolding register_reply ◌>>=◌ attempt return
handle_register e worker = do
  r ← attempt (register_worker e worker)
  return (register_reply worker r)

pub record HeartbeatResponse : Type 0 where
  pub success : Bool
  pub message : Message

heartbeat_reply : Result (Unit {0}) → HeartbeatResponse
heartbeat_reply (ok _) = record { success = true; message = text "OK" }
heartbeat_reply (err x) = record { success = false; message = text "RE_REGISTER" }

drain_reply : Env → String → M HeartbeatResponse
drain_reply e worker_id = do
  attempt (drain_worker e worker_id)
  return (record { success = true; message = text "DRAINING_ACK" })

beat_reply : Env → String → ℕ → M HeartbeatResponse
beat_reply e worker_id active_jobs = do
  r ← attempt (record_heartbeat e worker_id active_jobs)
  return (heartbeat_reply r)

-- Heartbeat
unfoldable pub handle_heartbeat : Env → String → ℕ → String → M HeartbeatResponse
unfolding heartbeat_reply drain_reply beat_reply ◌>>=◌ ◌>>◌ attempt return
handle_heartbeat e worker_id active_jobs status =
    if str_eq status "DRAINING" then drain_reply e worker_id else beat_reply e worker_id active_jobs

pub record JobResultRequest : Type 0 where
  pub job_id : String
  pub worker_id : String
  pub lease_version : ℕ
  pub success : Bool
  pub error_message : String

-- `autopsy` names the job for which the handler starts generateAutopsy.
pub record JobResultResponse : Type 0 where
  pub accepted : Bool
  pub message : Message
  pub autopsy : Option String

abbrev pub accepted_with : Option String → JobResultResponse
accepted_with autopsy = record { accepted = true; message = text "accepted"; autopsy = autopsy }

abbrev pub rejected : Error → JobResultResponse
rejected x = record { accepted = false; message = error_text x; autopsy = none }

abbrev pub autopsy_of : String → Result Job → Option String
autopsy_of job_id (ok job) = if is_dead_letter job.status then some job_id else none
autopsy_of job_id (err x) = none

success_reply : Result (Unit {0}) → JobResultResponse
success_reply (ok _) = accepted_with none
success_reply (err x) = rejected x

-- After a failure that was recorded, the job is read again.
unfoldable pub failure_reply : Env → String → Result (Unit {0}) → M JobResultResponse
failure_reply e job_id (err x) = return (rejected x)
failure_reply e job_id (ok _) = do
  job ← attempt (get_job_by_id e job_id)
  return (accepted_with (autopsy_of job_id job))

report_success : Env → JobResultRequest → M JobResultResponse
report_success e req = do
  r ← attempt (complete_job e req.job_id req.worker_id req.lease_version)
  return (success_reply r)

report_failure : Env → Config → JobResultRequest → M JobResultResponse
report_failure e cfg req = do
  r ← attempt (
      fail_job e req.job_id req.worker_id req.error_message req.lease_version cfg.retry_base_delay
        cfg.retry_max_delay)
  failure_reply e req.job_id r

-- ReportResult
unfoldable pub handle_report : Env → Config → JobResultRequest → M JobResultResponse
unfolding success_reply report_success report_failure ◌>>=◌ attempt return
handle_report e cfg req = if req.success then report_success e req else report_failure e cfg req

pub record LeaseRenewResponse : Type 0 where
  pub success : Bool
  pub new_expiry_ms : ℕ
  pub message : Message

-- Scan of the first row; no row is an error.
abbrev pub renew_reply : Result (List JobRow) → LeaseRenewResponse
renew_reply (ok (r ∷ _)) = record {
  success = true;
  new_expiry_ms = or_zero r.lease_expires_at / millisecond;
  message = text "renewed";
}
renew_reply _ = record {
  success = false;
  new_expiry_ms = 0;
  message = text "stale lease — job may have been reassigned";
}

-- RenewLease
unfoldable pub handle_renew : Env → Config → String → String → ℕ → M LeaseRenewResponse
unfolding ◌>>=◌ attempt return
handle_renew e cfg job_id worker_id lease_version = do
  rows ← attempt (renew_query e job_id worker_id lease_version cfg.lease_duration)
  return (renew_reply rows)
