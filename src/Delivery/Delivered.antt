-- ===== src/Delivery/Delivered.antt =====
-- The whole way of one job: claimed, dispatched, executed and reported.
use Prim.Native.String.{len}
use distributed_scheduler.Prelude.{
  ℕ, ◌<◌, ◌≡◌, ap, ◌∙◌, subst, sym, String, true, Option, none, some, length, if◌then◌else◌, str_eq,
  eq_refl, arith, first, eq_iff,
}
use distributed_scheduler.Models.{Job}
use distributed_scheduler.Config.{Config}
use distributed_scheduler.Db.{Env, answered, JobRow, Session, ok}
use distributed_scheduler.JobStore.Claiming.{claim_next_job}
use distributed_scheduler.JobStore.Evolution.{HasKeys}
use distributed_scheduler.JobStore.History.{find_job}
use distributed_scheduler.JobStore.Results.{can_finish}
use distributed_scheduler.Texts.{codes}
use distributed_scheduler.Executor.{ExecError, World, execute_payload}
use distributed_scheduler.WorkerNode.{RunningJob, Node, job_key, store, dispatch_job, finish_job}
use distributed_scheduler.WorkerNode.Tracking.{first-delete}
use distributed_scheduler.Delivery.{dispatch_to_worker, execute_job}
use distributed_scheduler.Delivery.Settled.{
  IsSettled, settle-IsSettled, dispatch_to_worker_lem, dispatch_job_id, claim-holds,
}

-- The entry of a job in a worker's map.
abbrev pub tracked : String → Node → Option RunningJob
tracked job_id w = first (λ j. str_eq (job_key j) job_id) w.active_jobs

dispatch_job-tracked :
    (job_id : String) (v now : ℕ) (w : Node)
    → length w.active_jobs < w.max_worker_count
    → tracked job_id (dispatch_job job_id v now w).0
      ≡ some (record { job_id = job_id; lease_version = v; started_at = now })
unfolding dispatch_job store first
dispatch_job-tracked job_id v now w room = ground (arith, eq_refl job_id)

finish_job-untracked : (job_id : String) (w : Node) → tracked job_id (finish_job job_id w) ≡ none
unfolding finish_job
finish_job-untracked job_id w = first-delete job_key job_id w.active_jobs

-- On a server that answers, whose tables have unique keys: a job that is claimed for a worker that
-- has room and the scheduler's token is tracked by the worker under the lease of the claim once it is
-- dispatched. When its payload has run and the report has arrived, the worker tracks it no more, and
-- a job that succeeded is SUCCEEDED; one that failed is held by nobody, with the failure counted and
-- recorded, and is PENDING if it has tries left and DEAD_LETTER if not. If the run panics, the
-- worker's process is gone and the tables are as they were.
pub delivered :
    (e : Env) (cfg : Config) (world : World) (message : ExecError → String) (worker_token : String)
    (w : Node) (now : ℕ) (s : Session) (job : Job)
    → ((n : ℕ) → e.link n ≡ answered)
    → HasKeys s.db
    → 0 < len cfg.worker_token_secret
    → cfg.worker_token_secret ≡ worker_token
    → length w.active_jobs < w.max_worker_count
    → (claim_next_job e w.id cfg.lease_duration s).0 ≡ ok (some job)
    → let t = (claim_next_job e w.id cfg.lease_duration s).1 in
      let w' = dispatch_to_worker cfg answered worker_token job now w in
      (tracked job.id w'
        ≡ some (record { job_id = job.id; lease_version = job.lease_version; started_at = now }))
      × (tracked job.id (finish_job job.id w') ≡ none)
      × ((x : JobRow) × (find_job job.id t.db ≡ some x)
          × IsSettled message job.id x w' t.db
              (execute_payload world (codes job.payload)).1
              (execute_job e cfg world message answered job job.lease_version w' t))
unfolding execute_job
delivered e cfg world message worker_token w now s job every keys h same room claimed =
    let t = (claim_next_job e w.id cfg.lease_duration s).1 in
    let w' = dispatch_to_worker cfg answered worker_token job now w in
    let sent : w' ≡ (dispatch_job job.id job.lease_version now w).0 =
      dispatch_to_worker_lem cfg worker_token job now w h
      ∙ ap (λ b. if b then (dispatch_job job.id job.lease_version now w).0 else w)
          ((eq_iff cfg.worker_token_secret worker_token).1 same) in
    let named : w'.id ≡ w.id =
      ap (λ (n : Node). n.id) sent ∙ dispatch_job_id job.id job.lease_version now w in
    let (x, found, holds) = claim-holds e w.id cfg.lease_duration s job every keys claimed in
    (
      ap (tracked job.id) sent ∙ dispatch_job-tracked job.id job.lease_version now w room,
      finish_job-untracked job.id w',
      (
        x,
        found,
        settle-IsSettled e cfg message job.id job.lease_version w' t x every found
            (subst (λ id. can_finish job.id id job.lease_version x ≡ true) (sym named) holds)
            (execute_payload world (codes job.payload)).1,
      ),
    )
