-- ===== src/System/Examples.antt =====
-- A short day of scheduler/scheduler.go from empty tables.
use distributed_scheduler.Prelude.{ℕ, ◌+◌, ◌*◌, String, false, Option, some, List, [], ◌∷◌, All}
use distributed_scheduler.Models.{second}
use distributed_scheduler.Config.{default}
use distributed_scheduler.Db.{Session}
use distributed_scheduler.JobStore.Machine.{AnyKind, IsSound}
use distributed_scheduler.JobStore.Evolution.{Evolves, HasKeys}
use distributed_scheduler.Samples.{server, no_job, worker_a, redacting}
use distributed_scheduler.Server.JobRpcs.{SubmitJobRequest}
use distributed_scheduler.Server.WorkerRpcs.{JobResultRequest}
use distributed_scheduler.System.{
  Event, registers, beats, reports, submits, cancels, makes_autopsy, monitors, reconciles,
  dispatches, evaluates, serve_all,
}
use distributed_scheduler.System.Sound.{serve_all-IsSound}

abbrev parse : String → Option (ℕ → ℕ)
parse expr = some (λ t. t + 60 * second)

abbrev request_id : String → ℕ → String
request_id schedule_id seconds = schedule_id

abbrev submission : SubmitJobRequest
submission = record {
  request_id = "request-1";
  tenant_id = "acme";
  priority = "HIGH";
  payload = "{}";
  max_retries = 1;
  run_timeout_ms = 5000;
}

abbrev failure : JobResultRequest
failure = record {
  job_id = "job-n";
  worker_id = "worker-a";
  lease_version = 1;
  success = false;
  error_message = "boom";
}

abbrev day : List Event
day =
    registers worker_a
    ∷ submits [] submission
    ∷ beats "worker-a" 0 "ACTIVE"
    ∷ dispatches 2
    ∷ evaluates (λ id. 2000 * second)
    ∷ reconciles
    ∷ reports failure
    ∷ makes_autopsy (2000 * second) "job-n"
    ∷ cancels "job-n" "acme"
    ∷ monitors
    ∷ []

abbrev evening : Session
evening = serve_all parse request_id redacting default server day no_job

serve_all-IsSound_example :
    HasKeys evening.db
    × Evolves AnyKind no_job.db.jobs evening.db.jobs
    × All IsSound evening.db.jobs
serve_all-IsSound_example =
    serve_all-IsSound parse request_id redacting default server day no_job
      (record { ids = tt; request_ids = tt }) tt
