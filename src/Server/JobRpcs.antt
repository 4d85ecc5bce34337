-- ===== src/Server/JobRpcs.antt =====
-- The client-facing job handlers of scheduler/scheduler.go.
pub mod Quota
use Prim.Native.String.{len}
use distributed_scheduler.Prelude.{
  ℕ, ◌*◌, String, Bool, true, false, not, ◌&&◌, Option, none, some, List, [], ◌∷◌, map, length, ltb,
  leb, ◌==◌, if◌then◌else◌, str_eq, matching,
}
use distributed_scheduler.Models.{Job, JobStatus, unset, is_final, status_text, millisecond}
use distributed_scheduler.Config.{Config}
use distributed_scheduler.Db.{
  Env, JobRow, Error, Result, ok, err, M, return, attempt, ◌>>=◌, ◌>>◌, statement,
}
use distributed_scheduler.JobStore.Queries.{get_job_by_id}
use distributed_scheduler.JobStore.Submission.{create_job}
use distributed_scheduler.JobStore.Sweeps.{cancel_job, list_jobs}
use distributed_scheduler.JobStore.Calls.{Call, run}
use distributed_scheduler.Server.Rpc.{
  Rpc, reply, status, invalid_argument, internal, resource_exhausted, Message, text, error_text,
}

pub record SubmitJobRequest : Type 0 where
  pub request_id : String
  pub tenant_id : String
  pub priority : String
  pub payload : String
  pub max_retries : ℕ
  pub run_timeout_ms : ℕ

abbrev pub counts_for : String → JobRow → Bool
counts_for tenant_id r = str_eq r.tenant_id tenant_id && not (is_final r.status)

-- getTenantJobCount
unfoldable pub get_tenant_job_count : Env → String → M ℕ
unfolding statement
get_tenant_job_count e tenant_id =
    statement e λ n d. (ok (matching (counts_for tenant_id) d.jobs), d)

abbrev pub submitted : SubmitJobRequest → Job
submitted req = record {
  id = "";
  request_id = req.request_id;
  tenant_id = req.tenant_id;
  status = unset;
  priority = req.priority;
  payload = req.payload;
  max_retries = req.max_retries;
  retry_count = 0;
  last_error = "";
  assigned_worker = "";
  lease_id = "";
  lease_expires_at = 0;
  lease_version = 0;
  created_at = 0;
  updated_at = 0;
  dispatched_at = none;
  started_at = none;
  completed_at = none;
  run_timeout = req.run_timeout_ms * millisecond;
  retry_after = none;
}

abbrev pub created_reply : Result Job → Rpc String
created_reply (ok job) = reply job.id
created_reply (err x) = status internal

unfoldable pub create_within_quota : Env → Config → SubmitJobRequest → Result ℕ → M (Rpc String)
unfolding ◌>>=◌ attempt return
create_within_quota e cfg req (err x) = return (status internal)
create_within_quota e cfg req (ok count) =
    if leb cfg.default_tenant_quota count
    then return (status resource_exhausted)
    else do created ← attempt (create_job e (submitted req)); return (created_reply created)

-- The calls that other sessions make between two statements.
unfoldable pub others_call : Env → List Call → M (Unit {0})
others_call e meanwhile s = (ok tt, run e meanwhile s)

-- SubmitJob. The count and the insert are two statements, with no transaction about them: `meanwhile`
-- is what other sessions do with the jobs between them.
unfoldable pub handle_submit : Env → Config → List Call → SubmitJobRequest → M (Rpc String)
unfolding others_call ◌>>=◌ ◌>>◌ attempt return
handle_submit e cfg meanwhile req =
    if ltb cfg.max_payload_bytes (len req.payload) then return (status invalid_argument) else do
      count ← attempt (get_tenant_job_count e req.tenant_id)
      others_call e meanwhile
      create_within_quota e cfg req count

-- GetJob: the job, or none. The tenant of the request is not used.
pub record GetJobRequest : Type 0 where
  pub job_id : String
  pub tenant_id : String

-- The message Job, as GetJob fills it.
pub record ProtoJob : Type 0 where
  pub id : String
  pub request_id : String
  pub tenant_id : String
  pub status : String
  pub priority : String
  pub payload : String
  pub max_retries : ℕ
  pub retry_count : ℕ
  pub last_error : String
  pub lease_version : ℕ

abbrev pub to_proto : Job → ProtoJob
to_proto job = record {
  id = job.id;
  request_id = job.request_id;
  tenant_id = job.tenant_id;
  status = status_text job.status;
  priority = job.priority;
  payload = job.payload;
  max_retries = job.max_retries;
  retry_count = job.retry_count;
  last_error = job.last_error;
  lease_version = job.lease_version;
}

abbrev pub found : Result Job → Option ProtoJob
found (ok job) = some (to_proto job)
found (err x) = none

unfoldable pub handle_get : Env → GetJobRequest → M (Option ProtoJob)
unfolding ◌>>=◌ attempt return
handle_get e req = do job ← attempt (get_job_by_id e req.job_id); return (found job)

pub record CancelJobResponse : Type 0 where
  pub success : Bool
  pub message : Message

abbrev pub cancel_reply : Result (Unit {0}) → CancelJobResponse
cancel_reply (ok _) = record { success = true; message = text "cancelled" }
cancel_reply (err x) = record { success = false; message = error_text x }

-- CancelJob
unfoldable pub handle_cancel : Env → String → String → M CancelJobResponse
unfolding ◌>>=◌ attempt return
handle_cancel e job_id tenant_id = do
  r ← attempt (cancel_job e job_id tenant_id)
  return (cancel_reply r)

pub record ListJobsResponse : Type 0 where
  pub jobs : List ProtoJob
  pub total : ℕ

-- ListJobs leaves the lease version out.
abbrev pub listed : Job → ProtoJob
listed job = record (to_proto job) { lease_version = 0 }

abbrev pub list_reply : Result (List Job) → Rpc ListJobsResponse
list_reply (ok jobs) = reply (record { jobs = map listed jobs; total = length jobs })
list_reply (err x) = status internal

-- ListJobs: no limit means 20, and an empty status means any.
unfoldable pub handle_list : Env → String → String → ℕ → ℕ → M (Rpc ListJobsResponse)
unfolding ◌>>=◌ attempt return
handle_list e tenant_id status_filter limit offset = do
  jobs ← attempt (
      list_jobs e tenant_id (if str_eq status_filter "" then none else some status_filter)
        (if limit == 0 then 20 else limit) offset)
  return (list_reply jobs)
