-- ===== src/System/Loops.antt =====
-- The loops of scheduler/scheduler.go and scheduler/cron.go as moves of the jobs along their machine.
use distributed_scheduler.Prelude.{ℕ, zero, suc, refl, String, Option, none, some, List, [], ◌∷◌}
use distributed_scheduler.Models.{Worker, Job, Schedule}
use distributed_scheduler.Config.{Config}
use distributed_scheduler.Db.{Env, Result, ok, err, M}
use distributed_scheduler.Db.Rules.{return-Respects, bind-Respects, then-Respects, attempt-Respects}
use distributed_scheduler.JobStore.Machine.{AnyKind}
use distributed_scheduler.JobStore.Refinement.{
  create_job-Refines, claim_next_job-Refines, reclaim_expired_jobs-Refines,
}
use distributed_scheduler.WorkerStore.{
  get_active_workers, get_stale_workers, get_least_loaded_worker,
}
use distributed_scheduler.Server.Dispatch.{
  mark_dead, mark_stale, reap_dead_workers, reconcile, Round, claim_turn, worker_turn,
  dispatch_pending_jobs,
}
use distributed_scheduler.Server.Metrics.{
  Gauges, statuses, count_status, set_depths, update_gauge_metrics,
}
use distributed_scheduler.ScheduleStore.{get_due_schedules, advance_schedule}
use distributed_scheduler.Cron.{create_runs, advance, fire_schedule, fire_each, evaluate}
use distributed_scheduler.System.Serving.{Moves, o, aside-Moves, mark_worker_dead-Moves}

module _ (e : Env) where
  mark_dead-Moves : (ws : List Worker) → Moves (mark_dead e ws)
  unfolding mark_dead
  mark_dead-Moves [] = return-Respects o _
  mark_dead-Moves (w ∷ ws) =
      then-Respects o _ _ (attempt-Respects o _ (mark_worker_dead-Moves e w.id))
        (mark_dead-Moves ws)

  mark_stale-Moves : (r : Result (List Worker)) → Moves (mark_stale e r)
  unfolding mark_stale
  mark_stale-Moves (ok ws) = mark_dead-Moves ws
  mark_stale-Moves (err x) = return-Respects o _

  pub reap_dead_workers-Moves : (cfg : Config) → Moves (reap_dead_workers e cfg)
  unfolding reap_dead_workers get_stale_workers
  reap_dead_workers-Moves cfg =
      bind-Respects o _ _ (attempt-Respects o _ (aside-Moves e _ (λ n d. refl))) mark_stale-Moves

  pub reconcile-Moves : Moves (reconcile e)
  unfolding reconcile
  reconcile-Moves = attempt-Respects o _ (reclaim_expired_jobs-Refines AnyKind e tt)

  claim_turn-Moves :
      (worker : Worker) (more : M Round) (r : Result (Option Job))
      → Moves more
      → Moves (claim_turn worker more r)
  unfolding claim_turn
  claim_turn-Moves w more (ok (some job)) h = bind-Respects o _ _ h (λ sent. return-Respects o _)
  claim_turn-Moves w more (ok none) h = return-Respects o _
  claim_turn-Moves w more (err x) h = return-Respects o _

  worker_turn-Moves :
      (cfg : Config) (more : M Round) (r : Result (Option Worker))
      → Moves more
      → Moves (worker_turn e cfg more r)
  unfolding worker_turn
  worker_turn-Moves cfg more (ok (some w)) h =
      bind-Respects o _ _
        (attempt-Respects o _ (claim_next_job-Refines AnyKind e w.id cfg.lease_duration tt))
        (λ r. claim_turn-Moves w more r h)
  worker_turn-Moves cfg more (ok none) h = return-Respects o _
  worker_turn-Moves cfg more (err x) h = return-Respects o _

  pub dispatch_pending_jobs-Moves :
      (cfg : Config) (fuel : ℕ) → Moves (dispatch_pending_jobs e cfg fuel)
  unfolding dispatch_pending_jobs get_least_loaded_worker
  dispatch_pending_jobs-Moves cfg zero = return-Respects o _
  dispatch_pending_jobs-Moves cfg (suc fuel) =
      bind-Respects o _ _ (attempt-Respects o _ (aside-Moves e _ (λ n d. refl)))
        (λ r. worker_turn-Moves cfg _ r (dispatch_pending_jobs-Moves cfg fuel))

  set_depths-Moves : (sts : List String) (g : Gauges) → Moves (set_depths e sts g)
  unfolding set_depths count_status
  set_depths-Moves [] g = return-Respects o _
  set_depths-Moves (st ∷ sts) g =
      bind-Respects o _ _ (attempt-Respects o _ (aside-Moves e _ (λ n d. refl)))
        (λ count. set_depths-Moves sts _)

  pub update_gauge_metrics-Moves : (g : Gauges) → Moves (update_gauge_metrics e g)
  unfolding update_gauge_metrics get_active_workers
  update_gauge_metrics-Moves g = bind-Respects o _ _ (set_depths-Moves statuses g) (λ g'.
      bind-Respects o _ _ (attempt-Respects o _ (aside-Moves e _ (λ n d. refl)))
        (λ r. return-Respects o _))

  module _ (parse : String → Option (ℕ → ℕ)) (request_id : String → ℕ → String) where
    create_runs-Moves :
        (sched : Schedule) (ts : List ℕ) → Moves (create_runs parse request_id e sched ts)
    unfolding create_runs
    create_runs-Moves sched [] = return-Respects o _
    create_runs-Moves sched (t ∷ ts) =
        then-Respects o _ _ (create_job-Refines AnyKind e _) (create_runs-Moves sched ts)

    advance-Moves :
        (sched : Schedule) (now : ℕ) (next : Option (ℕ → ℕ))
        → Moves (advance parse request_id e sched now next)
    unfolding advance advance_schedule
    advance-Moves sched now none = return-Respects o _
    advance-Moves sched now (some next) =
        bind-Respects o _ _ (aside-Moves e _ (λ n d. refl)) (λ _. return-Respects o _)

    fire_each-Moves :
        (now : String → ℕ) (xs : List Schedule) → Moves (fire_each parse request_id e now xs)
    unfolding fire_each fire_schedule
    fire_each-Moves now [] = return-Respects o _
    fire_each-Moves now (x ∷ xs) =
        then-Respects o _ _
          (attempt-Respects o _
            (then-Respects o _ _ (create_runs-Moves x _) (advance-Moves x (now x.id) _)))
          (fire_each-Moves now xs)

    pub evaluate-Moves : (now : String → ℕ) → Moves (evaluate parse request_id e now)
    unfolding evaluate get_due_schedules
    evaluate-Moves now = bind-Respects o _ _ (aside-Moves e _ (λ n d. refl)) (fire_each-Moves now)
