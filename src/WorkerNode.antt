-- ===== src/WorkerNode.antt =====
-- worker/worker.go: the jobs that a worker tracks, and its calls of the scheduler.
-- The two maps are lists with one entry to a key. A cancel function stands for the context that it
-- cancels, named by a number; a goroutine that ends is a call of `finish_job`.
pub mod Tracking
pub mod Draining
mod Examples
use distributed_scheduler.Prelude.{
  ℕ, suc, ◌+◌, String, Bool, true, false, not, ◌&&◌, Option, none, some, List, [], ◌∷◌, length, leb,
  if◌then◌else◌, str_eq, select, first,
}
use distributed_scheduler.Models.{Worker, active}
use distributed_scheduler.Config.{Config}
use distributed_scheduler.Db.{
  Env, Link, answered, request_lost, reply_lost, Result, ok, err, query_failed, M, return, throw,
  guard, attempt, ◌>>=◌, ◌>>◌,
}
use distributed_scheduler.Server.Rpc.{Message, text, error_text}
use distributed_scheduler.Server.WorkerRpcs.{handle_register, HeartbeatResponse, handle_heartbeat}

pub record RunningJob : Type 0 where
  pub job_id : String
  pub lease_version : ℕ
  pub started_at : ℕ

pub record CancelFunc : Type 0 where
  pub job_id : String
  pub context : ℕ

pub record Node : Type 0 where
  pub id : String
  pub tenant_id : String
  pub address : String
  pub max_worker_count : ℕ
  pub active_jobs : List RunningJob
  pub cancel_funcs : List CancelFunc
  pub contexts : ℕ
  pub cancelled : List ℕ

-- m[k] = v and delete(m, k)
module _ {A : Type 0} (key : A → String) where
  unfoldable pub delete : String → List A → List A
  delete k m = select (λ x. not (str_eq (key x) k)) m

  unfoldable pub store : A → List A → List A
  store x m = x ∷ delete (key x) m

pub record DispatchResponse : Type 0 where
  pub accepted : Bool
  pub message : String

abbrev pub job_key : RunningJob → String
job_key j = j.job_id

abbrev pub cancel_key : CancelFunc → String
cancel_key c = c.job_id

-- DispatchJob
unfoldable pub dispatch_job : String → ℕ → ℕ → Node → Node × DispatchResponse
dispatch_job job_id lease_version now w =
    if leb w.max_worker_count (length w.active_jobs)
    then (w, record { accepted = false; message = "worker at capacity" })
    else (
      record w {
        active_jobs =
            store job_key
              (record { job_id = job_id; lease_version = lease_version; started_at = now })
              w.active_jobs;
        cancel_funcs =
            store cancel_key (record { job_id = job_id; context = w.contexts }) w.cancel_funcs;
        contexts = suc w.contexts;
      },
      record { accepted = true; message = "accepted" },
    )

pub record CancelJobResponse : Type 0 where
  pub success : Bool
  pub message : String

forget : String → Node → Node
forget job_id w = record w {
  active_jobs = delete job_key job_id w.active_jobs;
  cancel_funcs = delete cancel_key job_id w.cancel_funcs;
}

cancel_found : String → Node → Option CancelFunc → Node × CancelJobResponse
cancel_found job_id w none =
    (w, record { success = false; message = "job not found on this worker" })
cancel_found job_id w (some c) = (
  record (forget job_id w) { cancelled = c.context ∷ w.cancelled },
  record { success = true; message = "cancelled" },
)

-- CancelJob
unfoldable pub cancel_job : String → Node → Node × CancelJobResponse
unfolding cancel_found forget
cancel_job job_id w =
    cancel_found job_id w (first (λ c. str_eq (cancel_key c) job_id) w.cancel_funcs)

-- The deferred cleanup of executeJob.
unfoldable pub finish_job : String → Node → Node
unfolding forget
finish_job job_id w = forget job_id w

pub data Event : Type 0 where
  dispatches : (job_id : String) (lease_version now : ℕ) → Event
  cancels : String → Event
  finishes : String → Event

unfoldable pub step : Node → Event → Node
step w (dispatches job_id lease_version now) = (dispatch_job job_id lease_version now w).0
step w (cancels job_id) = (cancel_job job_id w).0
step w (finishes job_id) = finish_job job_id w

unfoldable pub run : Node → List Event → Node
run w [] = w
run w (ev ∷ evs) = run (step w ev) evs

-- An RPC over the network: an error to the caller where the request or the reply is lost.
unfoldable pub rpc : {A : Type 0} → Link → M A → M A
unfolding throw ◌>>◌
rpc Link.answered m = m
rpc Link.request_lost m = throw query_failed
rpc Link.reply_lost m = m >> throw query_failed

-- What `register` sends.
abbrev pub registration : Node → Worker
registration w = record {
  id = w.id;
  tenant_id = w.tenant_id;
  status = active;
  address = w.address;
  last_heartbeat = 0;
  registered_at = 0;
  active_jobs = 0;
  max_jobs = 10;
  cpu_slots = 4;
  memory_mb = 512;
  version = "1.0.0";
}

unfoldable pub register : Env → Link → Node → M (Unit {0})
unfolding rpc ◌>>=◌ guard return throw
register e link w = do
  r ← rpc link (handle_register e (registration w))
  guard r.success query_failed

-- The scheduler told us to re-register.
abbrev pub must_register : HeartbeatResponse → Bool
must_register r = not r.success && is_re_register r.message
  where
    is_re_register : Message → Bool
    is_re_register (text s) = str_eq s "RE_REGISTER"
    is_re_register (error_text x) = false

after_heartbeat : Env → Link → Node → HeartbeatResponse → M (Unit {0})
after_heartbeat e link w r =
    if must_register r then attempt (register e link w) >> return tt else return tt

-- sendHeartbeat: the first link is the heartbeat's, the second the registration's.
unfoldable pub send_heartbeat : Env → Link → Link → Node → M (Unit {0})
unfolding after_heartbeat register rpc ◌>>=◌ ◌>>◌ attempt return throw
send_heartbeat e link link' w = do
  r ← rpc link (handle_heartbeat e w.id (length w.active_jobs) "ACTIVE")
  after_heartbeat e link' w r

-- drain
unfoldable pub drain : Env → Link → Node → M (Unit {0})
unfolding rpc ◌>>=◌ ◌>>◌ attempt return throw
drain e link w = do
  attempt (rpc link (handle_heartbeat e w.id (length w.active_jobs) "DRAINING"))
  return tt
