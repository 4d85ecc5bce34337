-- ===== src/Delivery/Examples.antt =====
-- A delivery on a small server.
use distributed_scheduler.Prelude.{
  ◌≡◌, refl, String, true, false, none, some, [], arith, first, select, best, update,
}
use distributed_scheduler.Models.{Job}
use distributed_scheduler.Config.{Config, default}
use distributed_scheduler.Db.{JobRow, answered, ok, ◌>>=◌, ◌>>◌, statement, return}
use distributed_scheduler.Samples.{server, one_waiting, waiting}
use distributed_scheduler.JobStore.Queries.{scan_job, record_transition}
use distributed_scheduler.JobStore.Claiming.{claim_next_job, claim_statement, next_job, eligible}
use distributed_scheduler.JobStore.Claim.{leased}
use distributed_scheduler.JobStore.Evolution.{HasKeys}
use distributed_scheduler.JobStore.History.{find_job}
use distributed_scheduler.Texts.{codes}
use distributed_scheduler.Executor.{ExecError, no_answer, World, execute_payload}
use distributed_scheduler.WorkerNode.{Node, finish_job}
use distributed_scheduler.Delivery.{new_worker, dispatch_to_worker, execute_job}
use distributed_scheduler.Delivery.Settled.{IsSettled}
use distributed_scheduler.Delivery.Delivered.{tracked, delivered}

abbrev settings : Config
settings = record default { worker_token_secret = "secret" }

abbrev idle : Node
idle = new_worker "worker-a" "acme" "10.0.0.1:50052" 2

-- A world whose payloads are no JSON.
abbrev garbled : World
garbled = record {
  decode = λ payload. none;
  run_process = λ parts. record { stdout = []; stderr = []; state = none; is_error = true };
  parse_url = λ url. none;
  valid_request = λ method url. true;
  split_host_port = λ addr. none;
  lookup_ip = λ host. none;
  send = λ dialer r. no_answer;
  case_table = λ c. c;
  context_ends = λ n. false;
}

abbrev message : ExecError → String
message x = "failed"

abbrev job : Job
job = scan_job (leased server "worker-a" settings.lease_duration one_waiting waiting)

keys : HasKeys one_waiting.db
keys = record { ids = (tt, tt); request_ids = (tt, tt) }

claimed : (claim_next_job server "worker-a" settings.lease_duration one_waiting).0 ≡ ok (some job)
unfolding claim_next_job ◌>>=◌ claim_statement statement next_job best select eligible ◌>>◌
    record_transition first update return
claimed = refl

delivered_example :
    let t = (claim_next_job server "worker-a" settings.lease_duration one_waiting).1 in
    let w' = dispatch_to_worker settings answered "secret" job 7 idle in
    (tracked job.id w'
      ≡ some (record { job_id = job.id; lease_version = job.lease_version; started_at = 7 }))
    × (tracked job.id (finish_job job.id w') ≡ none)
    × ((x : JobRow) × (find_job job.id t.db ≡ some x)
        × IsSettled message job.id x w' t.db
            (execute_payload garbled (codes job.payload)).1
            (execute_job server settings garbled message answered job job.lease_version w' t))
delivered_example =
    delivered server settings garbled message "secret" idle 7 one_waiting job (λ n. refl) keys
      (omega arith) refl (omega arith) claimed
