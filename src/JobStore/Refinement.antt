-- ===== src/JobStore/Refinement.antt =====
-- The queries of internal/db/jobstore.go as steps of the rows along the machine, and as inserts of
-- fresh rows.
mod Statements
pub use distributed_scheduler.JobStore.Refinement.Statements.{get_job_by_id-Refines}
use distributed_scheduler.Prelude.{
  ◌+◌, In-All, All-of_In, Distinct-unique, eq_iff, inl, inr, Option-cases, first, first-none-Lacks,
  All-intro, ℕ, String, Bool, true, Option, none, some, List, [], ◌∷◌, ◌≡◌, refl, arith,
}
use distributed_scheduler.Models.{JobStatus, Job}
use distributed_scheduler.Db.{Db, Env, JobRow}
use distributed_scheduler.Db.Rules.{
  IsPreorder, Respects, return-Respects, throw-Respects, guard-Respects, bind-Respects,
  then-Respects, attempt-Respects, draw-Respects, statement-Respects,
}
use distributed_scheduler.Retry.{calculate_backoff}
use distributed_scheduler.JobStore.Queries.{
  by_id, by_request_id, whole_seconds, touch, update_jobs, update_returning, record_transition,
  get_job_by_id, get_job_by_request_id,
}
use distributed_scheduler.JobStore.Submission.{
  new_row, insert_outcome, insert_job, created_job, create_job,
}
use distributed_scheduler.JobStore.Claiming.{
  next_job, claim_chosen, claim_statement, claimed_job, claim_next_job,
}
use distributed_scheduler.JobStore.Results.{
  start_row, complete_row, fail_row, mark_job_running, complete_job, read_retry_count,
  record_failure, update_failed, fail_job,
}
use distributed_scheduler.JobStore.Sweeps.{
  reclaim_row, cancel_row, record_reclaims, reclaim_expired_jobs, cancel_job, list_jobs,
}
use distributed_scheduler.JobStore.Renewal.{renew_row, renew_query}
use distributed_scheduler.JobStore.Choice.{next_job-IsNext, eligible-pending}
use distributed_scheduler.JobStore.Machine.{
  IsFresh, Kind, Move, claiming, starting, completing, failing, reclaiming, cancelling, renewing,
}
use distributed_scheduler.JobStore.Guards.{
  claim-Move, start-Move, complete-Move, fail-Move, reclaim-Move, cancel-Move, renew-Move,
}
use distributed_scheduler.JobStore.Evolution.{
  Refines, Refines-IsPreorder, same_jobs-Refines, update-Refines, insert-Refines,
}
use distributed_scheduler.JobStore.Refinement.Statements.{
  update_jobs-Refines, update_returning-Refines, record_transition-Refines,
  get_job_by_request_id-Refines, insert_outcome-Refines,
}

module _ (K : Kind → Type 0) where
  abbrev o : IsPreorder (Refines K)
  o = Refines-IsPreorder K

  module _ (e : Env) where
    insert_job-Refines : (job : Job) → Respects (Refines K) (insert_job e job)
    unfolding insert_job
    insert_job-Refines job = statement-Respects o e _ (insert_outcome-Refines K e job)

    created_job-Refines :
        (job : Job) (r : Option JobRow) → Respects (Refines K) (created_job e job r)
    unfolding created_job
    created_job-Refines job none = get_job_by_request_id-Refines K e job.request_id
    created_job-Refines job (some r) =
        then-Respects o _ _ (record_transition-Refines K e _ _ _ _ _) (return-Respects o _)

    pub create_job-Refines : (job : Job) → Respects (Refines K) (create_job e job)
    unfolding create_job
    create_job-Refines job = bind-Respects o _ _ (insert_job-Refines job) (created_job-Refines job)

    -- The chosen row waits, and no other row has its id.
    claim_chosen-Refines :
        (n : ℕ) (worker_id : String)
        → K (claiming worker_id)
        → (lease_duration : ℕ) (d : Db) (chosen : Option JobRow) → next_job e n d ≡ chosen
        → Refines K d (claim_chosen e n worker_id lease_duration d chosen).1
    unfolding claim_chosen
    claim_chosen-Refines n w k l d none h = o.refl_at d
    claim_chosen-Refines n w k l d (some r) h =
        let next = next_job-IsNext e n d r h in
        update-Refines K d _ _ (λ x. refl) (λ x. refl)
          λ keys. All-of_In _ d.jobs λ x i same. claim-Move K e n w l x k (
            rw (
              In-All _ x d.jobs (Distinct-unique (λ x. x.id) r d.jobs keys.ids next.stored) i
                  ((eq_iff _ _).0 same),
              eligible-pending e n r next.chosen,
            ))

    claim_statement-Refines :
        (worker_id : String) (lease_duration : ℕ)
        → K (claiming worker_id)
        → Respects (Refines K) (claim_statement e worker_id lease_duration)
    unfolding claim_statement
    claim_statement-Refines w l k =
        statement-Respects o e _ λ n d. claim_chosen-Refines n w k l d (next_job e n d) refl

    claimed_job-Refines :
        (worker_id : String) (r : Option JobRow) → Respects (Refines K) (claimed_job e worker_id r)
    unfolding claimed_job
    claimed_job-Refines w none = return-Respects o _
    claimed_job-Refines w (some r) =
        then-Respects o _ _ (record_transition-Refines K e _ _ _ _ _) (return-Respects o _)

    pub claim_next_job-Refines :
        (worker_id : String) (lease_duration : ℕ)
        → K (claiming worker_id)
        → Respects (Refines K) (claim_next_job e worker_id lease_duration)
    unfolding claim_next_job
    claim_next_job-Refines w l k =
        bind-Respects o _ _ (claim_statement-Refines w l k) (claimed_job-Refines w)

    pub mark_job_running-Refines :
        (job_id worker_id : String) (v : ℕ)
        → K (starting job_id worker_id v)
        → Respects (Refines K) (mark_job_running e job_id worker_id v)
    unfolding mark_job_running
    mark_job_running-Refines j w v k =
        bind-Respects o _ _
          (update_jobs-Refines K e _ start_row (λ _ _. (refl, refl))
            (λ now x h. start-Move K now j w v x k h))
          λ affected.
            then-Respects o _ _ (guard-Respects o _ _) (record_transition-Refines K e _ _ _ _ _)

    pub complete_job-Refines :
        (job_id worker_id : String) (v : ℕ)
        → K (completing job_id worker_id v)
        → Respects (Refines K) (complete_job e job_id worker_id v)
    unfolding complete_job
    complete_job-Refines j w v k =
        bind-Respects o _ _
          (update_jobs-Refines K e _ complete_row (λ _ _. (refl, refl))
            (λ now x h. complete-Move K now j w v x k h))
          λ affected.
            then-Respects o _ _ (guard-Respects o _ _) (record_transition-Refines K e _ _ _ _ _)

    record_failure-Refines :
        (job_id worker_id reason : String) (rows : List JobRow)
        → Respects (Refines K) (record_failure e job_id worker_id reason rows)
    unfolding record_failure
    record_failure-Refines j w m [] = throw-Respects o _ _
    record_failure-Refines j w m (r ∷ _) = record_transition-Refines K e _ _ _ _ _

    pub fail_job-Refines :
        (job_id worker_id reason : String) (v base_delay max_delay : ℕ)
        → K (failing job_id worker_id reason v)
        → Respects (Refines K) (fail_job e job_id worker_id reason v base_delay max_delay)
    unfolding fail_job update_failed read_retry_count
    fail_job-Refines j w m v base_delay max_delay k =
        bind-Respects o _ _ (statement-Respects o e _ (λ n d. o.refl_at d)) λ count.
          bind-Respects o _ _ (draw-Respects o e) λ rand.
            bind-Respects o _ _
              (update_returning-Refines K e _ (fail_row m (whole_seconds (backoff count rand)))
                (λ _ _. (refl, refl))
                (λ now x h. fail-Move K now j w m v (whole_seconds (backoff count rand)) x k h))
              (record_failure-Refines j w m)
      where
        backoff : ℕ → (ℕ → ℕ) → ℕ
        backoff count rand =
            calculate_backoff e.to_float64 e.to_int64 rand count base_delay max_delay

    record_reclaims-Refines : (rows : List JobRow) → Respects (Refines K) (record_reclaims e rows)
    unfolding record_reclaims
    record_reclaims-Refines [] = return-Respects o _
    record_reclaims-Refines (r ∷ rows) =
        then-Respects o _ _ (attempt-Respects o _ (record_transition-Refines K e _ _ _ _ _))
          (record_reclaims-Refines rows)

    pub reclaim_expired_jobs-Refines : K reclaiming → Respects (Refines K) (reclaim_expired_jobs e)
    unfolding reclaim_expired_jobs
    reclaim_expired_jobs-Refines k =
        bind-Respects o _ _
          (update_returning-Refines K e _ reclaim_row (λ _ _. (refl, refl))
            (λ now x h. reclaim-Move K now x k h))
          λ rows. then-Respects o _ _ (record_reclaims-Refines rows) (return-Respects o _)

    pub cancel_job-Refines :
        (job_id tenant_id : String)
        → K (cancelling job_id tenant_id)
        → Respects (Refines K) (cancel_job e job_id tenant_id)
    unfolding cancel_job
    cancel_job-Refines j t k =
        bind-Respects o _ _
          (update_jobs-Refines K e _ cancel_row (λ _ _. (refl, refl))
            (λ now x h. cancel-Move K now j t x k h))
          λ affected.
            then-Respects o _ _ (guard-Respects o _ _) (record_transition-Refines K e _ _ _ _ _)

    pub renew_query-Refines :
        (job_id worker_id : String) (v lease_duration : ℕ)
        → K (renewing job_id worker_id v)
        → Respects (Refines K) (renew_query e job_id worker_id v lease_duration)
    unfolding renew_query
    renew_query-Refines j w v l k =
        update_returning-Refines K e _ (λ now. renew_row (now + whole_seconds l))
          (λ _ _. (refl, refl)) (λ now x h. renew-Move K now j w v (now + whole_seconds l) x k h)

    pub list_jobs-Refines :
        (tenant_id : String) (status : Option String) (limit offset : ℕ)
        → Respects (Refines K) (list_jobs e tenant_id status limit offset)
    unfolding list_jobs
    list_jobs-Refines t st l k = statement-Respects o e _ λ n d. o.refl_at d
