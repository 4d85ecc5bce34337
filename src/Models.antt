-- ===== src/Models.antt =====
-- internal/models/models.go: the structs and string constants that the services share.
-- A time.Time and a time.Duration are numbers of nanoseconds; the zero time is 0. A nullable column
-- (a pointer in the struct) is an `Option`. Counters are unbounded numbers.
use distributed_scheduler.Prelude.{ℕ, String, Bool, true, false, Option}

-- `unset` is the empty text, the zero value of the Go type.
pub data JobStatus : Type 0 where
  unset : JobStatus
  pending dispatched running succeeded failed cancelled timed_out dead_letter : JobStatus

-- the text of the constant, as it is stored and sent
unfoldable pub status_text : JobStatus → String
status_text unset = ""
status_text pending = "PENDING"
status_text dispatched = "DISPATCHED"
status_text running = "RUNNING"
status_text succeeded = "SUCCEEDED"
status_text failed = "FAILED"
status_text cancelled = "CANCELLED"
status_text timed_out = "TIMED_OUT"
status_text dead_letter = "DEAD_LETTER"

-- The conditions on `status` in the queries.
abbrev pub is_pending : JobStatus → Bool
is_pending pending = true
is_pending _ = false

abbrev pub is_dispatched : JobStatus → Bool
is_dispatched dispatched = true
is_dispatched _ = false

abbrev pub is_running : JobStatus → Bool
is_running running = true
is_running _ = false

abbrev pub is_dead_letter : JobStatus → Bool
is_dead_letter dead_letter = true
is_dead_letter _ = false

-- status IN ('RUNNING', 'DISPATCHED')
abbrev pub in_flight : JobStatus → Bool
in_flight running = true
in_flight dispatched = true
in_flight _ = false

-- status IN ('SUCCEEDED', 'CANCELLED', 'DEAD_LETTER')
abbrev pub is_final : JobStatus → Bool
is_final succeeded = true
is_final cancelled = true
is_final dead_letter = true
is_final _ = false

-- A priority is any text: the server stores what the client sends.
abbrev pub JobPriority : Type 0
JobPriority = String

pub record Job : Type 0 where
  pub id : String
  pub request_id : String
  pub tenant_id : String
  pub status : JobStatus
  pub priority : JobPriority
  pub payload : String
  pub max_retries : ℕ
  pub retry_count : ℕ
  pub last_error : String
  pub assigned_worker : String
  pub lease_id : String
  pub lease_expires_at : ℕ
  pub lease_version : ℕ
  pub created_at : ℕ
  pub updated_at : ℕ
  pub dispatched_at : Option ℕ
  pub started_at : Option ℕ
  pub completed_at : Option ℕ
  pub run_timeout : ℕ
  pub retry_after : Option ℕ

pub data WorkerStatus : Type 0 where
  active dead draining : WorkerStatus

abbrev pub is_active : WorkerStatus → Bool
is_active active = true
is_active _ = false

pub record Worker : Type 0 where
  pub id : String
  pub tenant_id : String
  pub status : WorkerStatus
  pub address : String
  pub last_heartbeat : ℕ
  pub registered_at : ℕ
  pub active_jobs : ℕ
  pub max_jobs : ℕ
  pub cpu_slots : ℕ
  pub memory_mb : ℕ
  pub version : String

pub data MissedRunPolicy : Type 0 where
  skip run_once run_all : MissedRunPolicy

pub record Schedule : Type 0 where
  pub id : String
  pub tenant_id : String
  pub name : String
  pub cron_expr : String
  pub payload : String
  pub priority : JobPriority
  pub max_retries : ℕ
  pub run_timeout : ℕ
  pub enabled : Bool
  pub missed_policy : MissedRunPolicy
  pub last_run_at : Option ℕ
  pub next_run_at : ℕ
  pub created_at : ℕ
  pub updated_at : ℕ

pub record JobTransition : Type 0 where
  pub id : String
  pub job_id : String
  pub from_state : String
  pub to_state : String
  pub worker_id : String
  pub reason : String
  pub created_at : ℕ

abbrev pub second : ℕ
second = 1_000_000_000

abbrev pub millisecond : ℕ
millisecond = 1_000_000
