-- ===== src/System/Serving.antt =====
-- The handlers of workers and of jobs in scheduler/scheduler.go as moves of the jobs along their machine.
use Prim.Native.String.{len}
use distributed_scheduler.Prelude.{
  ℕ, ◌≡◌, refl, String, not, ltb, leb, ◌==◌, Option, none, some, List, if◌then◌else◌, if_elim,
  str_eq, first,
}
use distributed_scheduler.Models.{Worker, dead, draining}
use distributed_scheduler.Config.{Config}
use distributed_scheduler.Db.{
  Db, Env, Result, ok, err, not_active, M, return, guard, attempt, statement, ◌>>◌,
}
use distributed_scheduler.Db.Rules.{
  IsPreorder, Respects, return-Respects, guard-Respects, bind-Respects, then-Respects,
  attempt-Respects, statement-Respects,
}
use distributed_scheduler.JobStore.Machine.{AnyKind}
use distributed_scheduler.JobStore.Evolution.{Refines, Refines-IsPreorder, same_jobs-Refines}
use distributed_scheduler.JobStore.Refinement.{
  get_job_by_id-Refines, create_job-Refines, complete_job-Refines, fail_job-Refines,
  cancel_job-Refines, list_jobs-Refines, renew_query-Refines,
}
use distributed_scheduler.JobStore.Calls.{Call, run_any-Refines}
use distributed_scheduler.WorkerStore.{
  by_id, beat, upsert_known, register_worker, update_worker, record_heartbeat, mark_worker_dead,
  drain_worker,
}
use distributed_scheduler.Server.WorkerRpcs.{
  handle_register, handle_heartbeat, HeartbeatResponse, JobResultRequest, JobResultResponse,
  failure_reply, handle_report, handle_renew,
}
use distributed_scheduler.Server.Rpc.{Rpc, status, invalid_argument, internal, resource_exhausted}
use distributed_scheduler.JobStore.Results.{fail_job}
use distributed_scheduler.Server.JobRpcs.{
  SubmitJobRequest, get_tenant_job_count, create_within_quota, submitted, others_call,
  handle_submit, GetJobRequest, handle_get, handle_cancel, handle_list,
}

abbrev pub Moves : {A : Type 0} → M A → Type 0
Moves m = Respects (Refines AnyKind) m

abbrev pub o : IsPreorder (Refines AnyKind)
o = Refines-IsPreorder AnyKind

module _ (e : Env) where
  -- A statement on the other tables.
  pub aside-Moves :
      {A : Type 0} (body : ℕ → Db → Result A × Db)
      → ((n : ℕ) (d : Db) → (body n d).1.jobs ≡ d.jobs)
      → Moves (statement e body)
  aside-Moves body same =
      statement-Respects o e body (λ n d. same_jobs-Refines AnyKind d (body n d).1 (same n d))

  upsert-same :
      (now : ℕ) (worker : Worker) (d : Db) (w : Option Worker)
      → (upsert_known now worker d w).1.jobs ≡ d.jobs
  unfolding upsert_known
  upsert-same now worker d none = refl
  upsert-same now worker d (some w) = refl

  pub handle_register-Moves : (worker : Worker) → Moves (handle_register e worker)
  unfolding handle_register register_worker
  handle_register-Moves worker =
      aside-Moves (λ n d. upsert_known (e.clock n) worker d (first (by_id worker.id) d.workers))
        (λ n d. upsert-same (e.clock n) worker d (first (by_id worker.id) d.workers))

  update_worker-Moves :
      (worker_id : String) (set : ℕ → Worker → Worker) → Moves (update_worker e worker_id set)
  update_worker-Moves w set = aside-Moves _ (λ n d. refl)

  pub mark_worker_dead-Moves : (worker_id : String) → Moves (mark_worker_dead e worker_id)
  unfolding mark_worker_dead
  mark_worker_dead-Moves w =
      bind-Respects o (update_worker e w (λ now x. record x { status = dead })) (λ _. return tt)
        (update_worker-Moves w (λ now x. record x { status = dead })) (λ _. return-Respects o tt)

  drain_worker-Moves : (worker_id : String) → Moves (drain_worker e worker_id)
  unfolding drain_worker
  drain_worker-Moves w =
      bind-Respects o (update_worker e w (λ now x. record x { status = draining })) (λ _. return tt)
        (update_worker-Moves w (λ now x. record x { status = draining }))
        (λ _. return-Respects o tt)

  record_heartbeat-Moves :
      (worker_id : String) (active_jobs : ℕ) → Moves (record_heartbeat e worker_id active_jobs)
  unfolding record_heartbeat
  record_heartbeat-Moves w n =
      bind-Respects o (update_worker e w (beat n))
        (λ affected. guard (not (affected == 0)) not_active) (update_worker-Moves w (beat n))
        (λ affected. guard-Respects o _ not_active)

  pub handle_heartbeat-Moves :
      (worker_id : String) (active_jobs : ℕ) (status : String)
      → Moves (handle_heartbeat e worker_id active_jobs status)
  unfolding handle_heartbeat
  handle_heartbeat-Moves w n st =
      if_elim (λ (m : M HeartbeatResponse). Moves m) (str_eq st "DRAINING")
        (λ _. drain_worker-Moves w) (λ _. record_heartbeat-Moves w n)

  failure_reply-Moves : (job_id : String) (r : Result (Unit {0})) → Moves (failure_reply e job_id r)
  unfolding failure_reply
  failure_reply-Moves j (err x) = return-Respects o _
  failure_reply-Moves j (ok _) =
      bind-Respects o _ _ (attempt-Respects o _ (get_job_by_id-Refines AnyKind e j))
        (λ r. return-Respects o _)

  pub handle_report-Moves :
      (cfg : Config) (req : JobResultRequest) → Moves (handle_report e cfg req)
  unfolding handle_report
  handle_report-Moves cfg req =
      if_elim (λ (m : M JobResultResponse). Moves m) req.success
        (λ _. complete_job-Refines AnyKind e req.job_id req.worker_id req.lease_version tt)
        (λ _.
          bind-Respects o
            (attempt (
              fail_job e req.job_id req.worker_id req.error_message req.lease_version
                cfg.retry_base_delay cfg.retry_max_delay))
            (failure_reply e req.job_id)
            (attempt-Respects o
              (fail_job e req.job_id req.worker_id req.error_message req.lease_version
                cfg.retry_base_delay cfg.retry_max_delay)
              (fail_job-Refines AnyKind e _ _ _ _ _ _ tt))
            (failure_reply-Moves req.job_id))

  pub handle_renew-Moves :
      (cfg : Config) (job_id worker_id : String) (v : ℕ)
      → Moves (handle_renew e cfg job_id worker_id v)
  unfolding handle_renew
  handle_renew-Moves cfg j w v = renew_query-Refines AnyKind e j w v cfg.lease_duration tt

  create_within_quota-Moves :
      (cfg : Config) (req : SubmitJobRequest) (r : Result ℕ)
      → Moves (create_within_quota e cfg req r)
  unfolding create_within_quota
  create_within_quota-Moves cfg req (err x) = return-Respects o {A = Rpc String} (status internal)
  create_within_quota-Moves cfg req (ok count) =
      if_elim (λ (m : M (Rpc String)). Moves m) (leb cfg.default_tenant_quota count)
        (λ _. return-Respects o {A = Rpc String} (status resource_exhausted))
        (λ _. create_job-Refines AnyKind e (submitted req))

  get_tenant_job_count-Moves : (tenant_id : String) → Moves (get_tenant_job_count e tenant_id)
  unfolding get_tenant_job_count
  get_tenant_job_count-Moves t = aside-Moves _ (λ n d. refl)

  pub handle_submit-Moves :
      (cfg : Config) (meanwhile : List Call) (req : SubmitJobRequest)
      → Moves (handle_submit e cfg meanwhile req)
  unfolding handle_submit
  handle_submit-Moves cfg meanwhile req =
      if_elim (λ (m : M (Rpc String)). Moves m) (ltb cfg.max_payload_bytes (len req.payload))
        (λ _. return-Respects o {A = Rpc String} (status invalid_argument))
        (λ _.
          bind-Respects o (attempt (get_tenant_job_count e req.tenant_id))
            (λ count. others_call e meanwhile >> create_within_quota e cfg req count)
            (attempt-Respects o (get_tenant_job_count e req.tenant_id)
              (get_tenant_job_count-Moves req.tenant_id))
            (λ count.
              then-Respects o (others_call e meanwhile) (create_within_quota e cfg req count)
                (run_any-Refines e meanwhile) (create_within_quota-Moves cfg req count)))

  pub handle_get-Moves : (req : GetJobRequest) → Moves (handle_get e req)
  unfolding handle_get
  handle_get-Moves req = get_job_by_id-Refines AnyKind e req.job_id

  pub handle_cancel-Moves : (job_id tenant_id : String) → Moves (handle_cancel e job_id tenant_id)
  unfolding handle_cancel
  handle_cancel-Moves j t = cancel_job-Refines AnyKind e j t tt

  pub handle_list-Moves :
      (tenant_id status_filter : String) (limit offset : ℕ)
      → Moves (handle_list e tenant_id status_filter limit offset)
  unfolding handle_list
  handle_list-Moves t st limit offset =
      list_jobs-Refines AnyKind e t (if str_eq st "" then none else some st)
        (if limit == 0 then 20 else limit) offset
