-- ===== src/Samples.antt =====
-- A small server and a few rows for the runs in the modules of examples.
use distributed_scheduler.Prelude.{ℕ, suc, ◌+◌, ◌*◌, true, false, none, List, [], ◌∷◌}
use distributed_scheduler.Prelude.Int.{pos}
use distributed_scheduler.Models.{Job, unset, second, Worker, active, Schedule, run_all}
use distributed_scheduler.Db.{Db, Env, answered, JobRow, Session, ok}
use distributed_scheduler.Autopsy.{Library}
use distributed_scheduler.JobStore.Submission.{new_row}
use distributed_scheduler.JobStore.Claiming.{claim_row}

-- A server that answers, a second to a statement.
abbrev pub server : Env
server = record {
  link = λ n. answered;
  clock = λ n. (1000 + n) * second;
  uuid = λ n. elim n [ ℕ.zero ↦ "job-0" | suc m ↦ "job-n" ];
  locked = λ n id. false;
  rand = λ n bound. 0;
  to_float64 = λ n. n;
  to_int64 = pos;
}

abbrev pub request : Job
request = record {
  id = "";
  request_id = "request-1";
  tenant_id = "acme";
  status = unset;
  priority = "HIGH";
  payload = "{}";
  max_retries = 2;
  retry_count = 0;
  last_error = "";
  assigned_worker = "";
  lease_id = "";
  lease_expires_at = 0;
  lease_version = 0;
  created_at = 0;
  updated_at = 0;
  dispatched_at = none;
  started_at = none;
  completed_at = none;
  run_timeout = 5 * second;
  retry_after = none;
}

abbrev pub waiting : JobRow
waiting = new_row server 0 request

-- The job under its second lease.
abbrev pub held : JobRow
held = record (claim_row server 3 "worker-b" (30 * second) waiting) { lease_version = 2 }

abbrev pub tables : List JobRow → Db
tables jobs = record {
  jobs = jobs;
  transitions = [];
  workers = [];
  schedules = [];
  quotas = [];
  autopsies = [];
}

abbrev pub no_job : Session
no_job = record { db = tables []; sent = 0 }

abbrev pub one_waiting : Session
one_waiting = record { db = tables (waiting ∷ []); sent = 1 }

abbrev pub one_held : Session
one_held = record { db = tables (held ∷ []); sent = 50 }

abbrev pub worker_a : Worker
worker_a = record {
  id = "worker-a";
  tenant_id = "acme";
  status = active;
  address = "10.0.0.1:50052";
  last_heartbeat = 900 * second;
  registered_at = 800 * second;
  active_jobs = 1;
  max_jobs = 4;
  cpu_slots = 4;
  memory_mb = 512;
  version = "1.0.0";
}

abbrev pub worker_b : Worker
worker_b = record worker_a { id = "worker-b"; active_jobs = 3; last_heartbeat = 1040 * second }

-- Two workers, and a job that waits.
abbrev pub two_workers : Session
two_workers = record {
  db = record (tables (waiting ∷ [])) { workers = worker_a ∷ worker_b ∷ [] };
  sent = 50;
}

abbrev pub nightly : Schedule
nightly = record {
  id = "schedule-1";
  tenant_id = "acme";
  name = "nightly";
  cron_expr = "0 0 * * *";
  payload = "{}";
  priority = "LOW";
  max_retries = 3;
  run_timeout = 5 * second;
  enabled = true;
  missed_policy = run_all;
  last_run_at = none;
  next_run_at = 900 * second;
  created_at = 800 * second;
  updated_at = 800 * second;
}

abbrev pub one_schedule : Session
one_schedule = record { db = record (tables []) { schedules = nightly ∷ [] }; sent = 50 }

-- A library whose one pattern takes any text for a secret.
abbrev pub redacting : Library
redacting = record {
  patterns = (λ redact t. redact t) ∷ [];
  key_end = λ t. none;
  case_table = λ c. c;
  format_time = λ t. [];
  duration_text = λ t. [];
  marshal = λ r. ok "{}";
  jsonb = λ json. json;
}
