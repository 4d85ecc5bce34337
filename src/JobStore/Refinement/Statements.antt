-- ===== src/JobStore/Refinement/Statements.antt =====
-- The shapes of statement that internal/db/jobstore.go sends.
use distributed_scheduler.Prelude.{
  inl, inr, Option-cases, first, first-none-Lacks, All-intro, ℕ, String, Bool, true, ◌≡◌, arith,
}
use distributed_scheduler.Models.{JobStatus, Job}
use distributed_scheduler.Db.{Db, Env, JobRow}
use distributed_scheduler.Db.Rules.{IsPreorder, Respects, statement-Respects}
use distributed_scheduler.JobStore.Queries.{
  by_id, by_request_id, touch, update_jobs, update_returning, record_transition, get_job_by_id,
  get_job_by_request_id,
}
use distributed_scheduler.JobStore.Submission.{new_row, insert_outcome}
use distributed_scheduler.JobStore.Machine.{IsFresh, Kind, Move}
use distributed_scheduler.JobStore.Evolution.{
  Refines, Refines-IsPreorder, same_jobs-Refines, update-Refines, insert-Refines,
}

-- What every SET clause leaves alone.
abbrev KeepsKeys : (ℕ → JobRow → JobRow) → Type 0
KeepsKeys set =
    (now : ℕ) (x : JobRow) → ((set now x).id ≡ x.id) × ((set now x).request_id ≡ x.request_id)

module _ (K : Kind → Type 0) where
  abbrev o : IsPreorder (Refines K)
  o = Refines-IsPreorder K

  module _ (e : Env) (test : ℕ → JobRow → Bool) (set : ℕ → JobRow → JobRow) where
    module _ (keeps : KeepsKeys set)
        (steps : (now : ℕ) (x : JobRow)
          → test now x ≡ true
          → Move K x (touch now (set now x))) where
      pub update_jobs-Refines : Respects (Refines K) (update_jobs e test set)
      update_jobs-Refines = statement-Respects o e _ λ n d.
          update-Refines K d _ _ (λ x. (keeps (e.clock n) x).0) (λ x. (keeps (e.clock n) x).1)
            (λ _. All-intro _ d.jobs (steps (e.clock n)))

      pub update_returning-Refines : Respects (Refines K) (update_returning e test set)
      update_returning-Refines = statement-Respects o e _ λ n d.
          update-Refines K d _ _ (λ x. (keeps (e.clock n) x).0) (λ x. (keeps (e.clock n) x).1)
            (λ _. All-intro _ d.jobs (steps (e.clock n)))

  module _ (e : Env) where
    pub record_transition-Refines :
        (job_id : String) (from to : JobStatus) (worker_id reason : String)
        → Respects (Refines K) (record_transition e job_id from to worker_id reason)
    unfolding record_transition
    record_transition-Refines job_id from to worker_id reason =
        statement-Respects o e _ λ n d. same_jobs-Refines K d _ (ground arith)

    pub get_job_by_id-Refines : (job_id : String) → Respects (Refines K) (get_job_by_id e job_id)
    unfolding get_job_by_id
    get_job_by_id-Refines job_id = statement-Respects o e _ λ n d. o.refl_at d

    pub get_job_by_request_id-Refines :
        (request_id : String) → Respects (Refines K) (get_job_by_request_id e request_id)
    unfolding get_job_by_request_id
    get_job_by_request_id-Refines request_id = statement-Respects o e _ λ n d. o.refl_at d

    new_row-IsFresh : (n : ℕ) (job : Job) → IsFresh (new_row e n job)
    new_row-IsFresh n job = ground arith

    pub insert_outcome-Refines :
        (job : Job) (n : ℕ) (d : Db) → Refines K d (insert_outcome e job n d).1
    unfolding insert_outcome
    insert_outcome-Refines job n d =
        elim (Option-cases (first (by_request_id job.request_id) d.jobs)) [
          | inr (_, taken) ↦ same_jobs-Refines K d _ (ground arith)
          | inl new ↦ elim (Option-cases (first (by_id (e.uuid n)) d.jobs)) [
            | inr (_, taken) ↦ same_jobs-Refines K d _ (ground arith)
            | inl free ↦
                rw (new, free)
                  (insert-Refines K d (new_row e n job) (new_row-IsFresh n job)
                    (first-none-Lacks (λ r. r.id) (e.uuid n) d.jobs free)
                    (first-none-Lacks (λ r. r.request_id) job.request_id d.jobs new))
          ]
        ]
