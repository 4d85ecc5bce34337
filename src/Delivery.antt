-- ===== src/Delivery.antt =====
-- A job on its way between the two programs: dispatchToWorker of scheduler/scheduler.go, and the
-- goroutines of worker/worker.go that run the job, renew its lease and report its end.
-- The transport's credentials are left out. `message` is the text of an executor's error.
pub mod Settled
pub mod Delivered
mod Examples
use Prim.Native.String.{◌++◌ as ◌+++◌}
use distributed_scheduler.Prelude.{
  ℕ, String, Bool, true, false, not, Option, none, some, List, [], ◌∷◌, if◌then◌else◌,
}
use distributed_scheduler.Models.{Job}
use distributed_scheduler.Config.{Config}
use distributed_scheduler.Db.{Env, Link, Result, ok, err, M, return, attempt, ◌>>=◌, ◌>>◌}
use distributed_scheduler.Texts.{codes}
use distributed_scheduler.Executor.Commands.{Outcome, done, failed, panicked}
use distributed_scheduler.Executor.{ExecError, World, execute_payload}
use distributed_scheduler.Auth.{Metadata, worker_auth_interceptor}
use distributed_scheduler.Server.Rpc.{Rpc, reply, status}
use distributed_scheduler.Server.WorkerRpcs.{
  JobResultRequest, JobResultResponse, handle_report, LeaseRenewResponse, handle_renew,
}
use distributed_scheduler.WorkerNode.{Node, DispatchResponse, dispatch_job, finish_job, rpc}

-- NewWorker
abbrev pub new_worker : String → String → String → ℕ → Node
new_worker id tenant_id address max_worker_count = record {
  id = id;
  tenant_id = tenant_id;
  address = address;
  max_worker_count = max_worker_count;
  active_jobs = [];
  cancel_funcs = [];
  contexts = 0;
  cancelled = [];
}

admit : Job → ℕ → Node → Rpc (Unit {0}) → Node × Rpc DispatchResponse
admit job now w (reply _) =
    let (w', r) = dispatch_job job.id job.lease_version now w in (w', reply r)
admit job now w (status c) = (w, status c)

-- The worker's server: DispatchJob behind workerAuthInterceptor.
unfoldable pub serve_dispatch : String → Metadata → Job → ℕ → Node → Node × Rpc DispatchResponse
unfolding admit
serve_dispatch worker_token md job now w =
    admit job now w (worker_auth_interceptor worker_token md (reply tt))

-- The metadata that dispatchToWorker and authCtx attach.
abbrev pub bearing : String → Metadata
bearing token = some (("Bearer " +++ token) ∷ [])

-- dispatchToWorker, by the worker that it leaves: errors and refusals are logged only. A worker whose
-- connection fails is one that the request does not reach.
unfoldable pub dispatch_to_worker : Config → Link → String → Job → ℕ → Node → Node
dispatch_to_worker cfg Link.request_lost worker_token job now w = w
dispatch_to_worker cfg _ worker_token job now w =
    (serve_dispatch worker_token (bearing cfg.worker_token_secret) job now w).0

-- A tick of renewLease: no client to be had, or a request.
pub data RenewTick : Type 0 where
  no_client : RenewTick
  renews : Link → RenewTick

-- A refusal or an error ends the loop.
renew_on : Result LeaseRenewResponse → M (Unit {0}) → M (Unit {0})
renew_on (ok r) more = if r.success then more else return tt
renew_on (err x) more = return tt

-- renewLease: the ticks until the job's context ends.
unfoldable pub renew_lease : Env → Config → String → ℕ → Node → List RenewTick → M (Unit {0})
unfolding renew_on
renew_lease e cfg job_id v w [] = return tt
renew_lease e cfg job_id v w (no_client ∷ ticks) = renew_lease e cfg job_id v w ticks
renew_lease e cfg job_id v w (renews link ∷ ticks) = do
  r ← attempt (rpc link (handle_renew e cfg job_id w.id v))
  renew_on r (renew_lease e cfg job_id v w ticks)

abbrev pub result_request : String → ℕ → Node → Option String → JobResultRequest
result_request job_id v w none = record {
  job_id = job_id;
  worker_id = w.id;
  lease_version = v;
  success = true;
  error_message = "";
}
result_request job_id v w (some text) = record {
  job_id = job_id;
  worker_id = w.id;
  lease_version = v;
  success = false;
  error_message = text;
}

-- reportResult: what the scheduler answers is logged only.
unfoldable pub report_result :
    Env → Config → Link → String → ℕ → Option String → Node → M (Unit {0})
report_result e cfg link job_id v job_err w = do
  attempt (rpc link (handle_report e cfg (result_request job_id v w job_err)))
  return tt

-- reportRunning, which nothing calls: the request is that of a success.
unfoldable pub report_running : Env → Config → Link → String → ℕ → Node → M (Unit {0})
report_running e cfg link job_id v w = do
  attempt (rpc link (handle_report e cfg (result_request job_id v w none)))
  return tt

abbrev pub job_error : (ExecError → String) → Outcome ExecError → Option String
job_error message (failed x) = some (message x)
job_error message _ = none

-- A panic in the goroutine of a job ends the whole process: none.
unfoldable pub settle :
    Env
    → Config
    → (ExecError → String)
    → Link
    → String
    → ℕ
    → Node
    → Outcome ExecError
    → M (Option Node)
settle e cfg message link job_id v w panicked = return none
settle e cfg message link job_id v w outcome = do
  report_result e cfg link job_id v (job_error message outcome) w
  return (some (finish_job job_id w))

-- executeJob and runJob
unfoldable pub execute_job :
    Env → Config → World → (ExecError → String) → Link → Job → ℕ → Node → M (Option Node)
unfolding settle
execute_job e cfg world message link job v w =
    settle e cfg message link job.id v w (execute_payload world (codes job.payload)).1
