-- ===== src/Server/Examples.antt =====
-- Runs of the handlers and loops of scheduler/scheduler.go, and their theorems at them.
use distributed_scheduler.Prelude.{
  ℕ, Option, ◌∷◌, [], ◌+◌, eq_iff, ◌*◌, ◌≤◌, ◌≡◌, refl, String, true, false, not, ◌&&◌, none, some,
  List, ◌-◌, ◌==◌, All, length, arith, first, matching, if◌then◌else◌, str_eq,
}
use distributed_scheduler.Models.{Job, Worker, second}
use distributed_scheduler.Config.{Config, default}
use distributed_scheduler.Db.{Env, Error, ok, statement, return, ◌>>=◌, ◌>>◌}
use distributed_scheduler.Server.AutopsyRpcs.{generate_autopsy, handle_get_autopsy}
use distributed_scheduler.Server.AutopsyRpcs.Reading.{handle_get_autopsy-generate}
use distributed_scheduler.Samples.{
  redacting, server, held, request, no_job, one_held, two_workers, one_schedule,
}
use distributed_scheduler.JobStore.Results.{exhausted}
use distributed_scheduler.Server.Rpc.{status, reply, not_found}
use distributed_scheduler.Server.Dispatch.{dispatch_pending_jobs}
use distributed_scheduler.Server.Dispatch.Rounds.{offered, dispatch_pending_jobs-IsRound}
use distributed_scheduler.Server.JobRpcs.{
  SubmitJobRequest, handle_submit, others_call, create_within_quota, get_tenant_job_count,
}
use distributed_scheduler.JobStore.Calls.{Call, create, run, perform}
use distributed_scheduler.JobStore.Submission.{create_job, insert_job, insert_outcome, created_job}
use distributed_scheduler.JobStore.Queries.{record_transition}
use distributed_scheduler.Server.JobRpcs.Quota.{resumed, unfinished, handle_submit-quota}
use distributed_scheduler.Server.WorkerRpcs.{
  JobResultRequest, accepted_with, rejected, handle_report,
}
use distributed_scheduler.Server.ScheduleRpcs.{CreateScheduleRequest}
use distributed_scheduler.Server.ScheduleRpcs.Runnable.{
  Change, creates, toggles, IsRunnable, apply_all, apply_all-Runnable,
}
use distributed_scheduler.Server.WorkerRpcs.Verdicts.{handle_report_accepts, handle_report_rejects}

dispatch_pending_jobs-IsRound_example :
    (sent : List (Job × Worker)) × ((dispatch_pending_jobs server default 2 two_workers).0
      ≡ ok (some sent))
    × (length sent ≤ 1)
    × All (λ p. (p.0.assigned_worker ≡ p.1.id) × (offered two_workers.db ≡ some p.1)) sent
unfolding matching
dispatch_pending_jobs-IsRound_example =
    dispatch_pending_jobs-IsRound server default 2 two_workers (omega arith)

abbrev submission : SubmitJobRequest
submission = record {
  request_id = "request-2";
  tenant_id = "acme";
  priority = "HIGH";
  payload = "{}";
  max_retries = 2;
  run_timeout_ms = 5000;
}

abbrev quota_of_one : Config
quota_of_one = record default { default_tenant_quota = 1 }

-- Another session submits a job of the tenant between the count and the insert.
abbrev other_submission : List Call
other_submission = create (record request { request_id = "request-9" }) ∷ []

abbrev two_ids : Env
two_ids = record server { uuid = λ n. if n == 1 then "job-1" else "job-n" }

handle_submit-quota_example :
    unfinished "acme" (handle_submit two_ids quota_of_one other_submission submission no_job).1.db
    ≤ 1
      + (unfinished "acme" (resumed two_ids quota_of_one other_submission submission no_job).db - 0)
unfolding matching
handle_submit-quota_example =
    handle_submit-quota two_ids quota_of_one other_submission submission no_job "acme" (omega arith)

-- The tenant then has two jobs, though its quota is one.
raced :
    unfinished "acme" (handle_submit two_ids quota_of_one other_submission submission no_job).1.db
    ≡ 2
unfolding handle_submit others_call create_within_quota get_tenant_job_count run perform create_job
    insert_job insert_outcome created_job record_transition statement first matching ◌>>=◌ ◌>>◌
    return
raced = refl

abbrev report : JobResultRequest
report = record {
  job_id = "job-0";
  worker_id = "worker-b";
  lease_version = 2;
  success = false;
  error_message = "boom";
}

handle_report_accepts_example :
    (handle_report server default report one_held).0
    ≡ ok (accepted_with (if not report.success && exhausted held then some "job-0" else none))
unfolding first
handle_report_accepts_example =
    handle_report_accepts server default report one_held held (λ n. refl) refl refl

handle_report_rejects_example :
    let late = record report { lease_version = 1 } in
    (x : Error) × ((handle_report server default late one_held).0 ≡ ok (rejected x))
    × ((handle_report server default late one_held).1.db ≡ one_held.db)
handle_report_rejects_example =
    handle_report_rejects server default (record report { lease_version = 1 }) one_held (refl, tt)

abbrev every_minute : String → Option (ℕ → ℕ)
every_minute expr = some (λ t. t + 60 * second)

abbrev hourly : CreateScheduleRequest
hourly = record {
  tenant_id = "acme";
  name = "hourly";
  cron_expr = "* * * * *";
  payload = "{}";
  priority = "";
  max_retries = 0;
  run_timeout_ms = 0;
  missed_policy = "RUN_ALL";
}

abbrev changes : List Change
changes = creates hourly (1000 * second) ∷ toggles "schedule-1" "acme" false ∷ []

apply_all-Runnable_example :
    All
      (IsRunnable every_minute)
      (apply_all every_minute server default changes one_schedule).db.schedules
apply_all-Runnable_example = apply_all-Runnable every_minute server default changes one_schedule (
  record {
    parses = λ bad. ground (arith, bad);
    has_tenant = ground (arith, eq_iff "acme" "");
    has_name = ground (arith, eq_iff "nightly" "");
  },
  tt,
)

handle_get_autopsy-generate_example :
    (handle_get_autopsy server "job-0" "acme"
      (generate_autopsy server redacting 0 "job-0" one_held).1).0
    ≡ ok (
        if str_eq held.tenant_id "acme"
        then reply (record { found = true; report_json = "{}"; message = "ok" })
        else status not_found)
unfolding first
handle_get_autopsy-generate_example =
    handle_get_autopsy-generate server (λ n. refl) redacting 0 "job-0" one_held held "{}" refl refl
      refl "acme" refl refl refl
