-- ===== src/Server/Dispatch.antt =====
-- The background work of scheduler/scheduler.go: reaping, reconciling and dispatching. A tick of each
-- loop is one call; dispatchToWorker's RPC is the worker's DispatchJob and changes no table.
pub mod Rounds
pub mod Reaping
use distributed_scheduler.Prelude.{ℕ, zero, suc, String, Bool, Option, none, some, List, [], ◌∷◌}
use distributed_scheduler.Models.{Worker, Job}
use distributed_scheduler.Config.{Config}
use distributed_scheduler.Db.{Env, Result, ok, err, M, return, attempt, ◌>>=◌, ◌>>◌}
use distributed_scheduler.JobStore.Claiming.{claim_next_job}
use distributed_scheduler.JobStore.Sweeps.{reclaim_expired_jobs}
use distributed_scheduler.WorkerStore.{get_stale_workers, mark_worker_dead, get_least_loaded_worker}

-- An error for one worker does not keep the others from being marked.
unfoldable pub mark_dead : Env → List Worker → M (Unit {0})
mark_dead e [] = return tt
mark_dead e (w ∷ ws) = do attempt (mark_worker_dead e w.id); mark_dead e ws

unfoldable pub mark_stale : Env → Result (List Worker) → M (Unit {0})
mark_stale e (ok stale) = mark_dead e stale
mark_stale e (err x) = return tt

-- reapDeadWorkers
unfoldable pub reap_dead_workers : Env → Config → M (Unit {0})
unfolding mark_stale
reap_dead_workers e cfg = do
  stale ← attempt (get_stale_workers e cfg.heartbeat_timeout)
  mark_stale e stale

-- The body of startReconciler, and of onPromote.
unfoldable pub reconcile : Env → M (Result ℕ)
reconcile e = attempt (reclaim_expired_jobs e)

-- The jobs that one round hands out, each with its worker; none when the fuel has run out.
abbrev pub Round : Type 0
Round = Option (List (Job × Worker))

abbrev pub also : Job → Worker → Round → Round
also job worker none = none
also job worker (some sent) = some ((job, worker) ∷ sent)

-- What one turn of the loop does with the worker, and then with the job.
unfoldable pub claim_turn : Worker → M Round → Result (Option Job) → M Round
claim_turn worker more (ok (some job)) = do sent ← more; return (also job worker sent)
claim_turn worker more _ = return (some [])

unfoldable pub worker_turn : Env → Config → M Round → Result (Option Worker) → M Round
unfolding claim_turn
worker_turn e cfg more (ok (some worker)) = do
  job ← attempt (claim_next_job e worker.id cfg.lease_duration)
  claim_turn worker more job
worker_turn e cfg more _ = return (some [])

-- dispatchPendingJobs, on fuel: each turn claims a job or ends the round.
unfoldable pub dispatch_pending_jobs : Env → Config → ℕ → M Round
unfolding worker_turn
dispatch_pending_jobs e cfg zero = return none
dispatch_pending_jobs e cfg (suc fuel) = do
  worker ← attempt (get_least_loaded_worker e)
  worker_turn e cfg (dispatch_pending_jobs e cfg fuel) worker
