-- ===== src/JobStore/Lease.antt =====
-- Lease versions as fences in internal/db/jobstore.go: who may report on a job.
use distributed_scheduler.Prelude.{
  ℕ, ◌<◌, ◌≡◌, refl, inl, inr, String, Bool, true, false, some, List, ap, update, All, eq_iff,
  arith, first-In, matching_zero, update_no_match, select_none, subst, Distinct-unique,
  first-select, sym, ◌∙◌, All-of_In, In-All, Bool-cases,
}
use distributed_scheduler.Db.{
  Db, Env, JobRow, Session, is_err, ◌>>=◌, ◌>>◌, statement, guard, draw, throw,
}
use distributed_scheduler.Db.Rules.{Refuses, bind-Refuses}
use distributed_scheduler.JobStore.Queries.{by_id, touch}
use distributed_scheduler.JobStore.Results.{
  can_finish, complete_row, fail_row, update_failed, complete_job, fail_job, read_retry_count,
  record_failure,
}
use distributed_scheduler.JobStore.Evolution.{HasKeys}
use distributed_scheduler.JobStore.Calls.{Call, run, run_any-Refines}
use distributed_scheduler.JobStore.History.{find_job, run-Advances}

pub no_match :
    (d : Db) (p : JobRow → Bool) (f : JobRow → JobRow)
    → All (λ r. p r ≡ false) d.jobs
    → record d { jobs = update p f d.jobs } ≡ d
no_match d p f h =
    ap (λ js. record d { jobs = js }) (update_no_match p f d.jobs (matching_zero p d.jobs h))

-- The row of the job is the only one that a condition on its id could match.
pub only_row :
    (p : JobRow → Bool) (job_id : String) (x : JobRow) (d : Db)
    → HasKeys d
    → find_job job_id d ≡ some x
    → ((r : JobRow) → p r ≡ true → by_id job_id r ≡ true)
    → p x ≡ false
    → All (λ r. p r ≡ false) d.jobs
only_row p job_id x d keys h only unmet = All-of_In _ d.jobs λ r i. elim (Bool-cases (p r)) [
  | inr f ↦ f
  | inl t ↦
      subst (λ z. p z ≡ false)
        (sym (
          In-All _ r d.jobs
            (Distinct-unique (λ z. z.id) x d.jobs keys.ids (first-In (by_id job_id) x d.jobs h)) i
            ((eq_iff _ _).0 (only r t)
              ∙ sym ((eq_iff _ _).0 (first-select (by_id job_id) d.jobs h)))))
        unmet
]

module _ (e : Env) (job_id worker_id : String) (v : ℕ) (s : Session) where
  module _ (none_match : All (λ r. can_finish job_id worker_id v r ≡ false) s.db.jobs) where
    pub complete_job_no_match :
        ((complete_job e job_id worker_id v s).1.db ≡ s.db)
        × (is_err (complete_job e job_id worker_id v s).0 ≡ true)
    unfolding complete_job ◌>>=◌ ◌>>◌ statement guard
    complete_job_no_match = ground (
      arith,
      matching_zero (can_finish job_id worker_id v) s.db.jobs none_match,
      no_match s.db (can_finish job_id worker_id v)
          (λ r. touch (e.clock s.sent) (complete_row (e.clock s.sent) r)) none_match,
    )

  failure_no_match :
      (d : Db) (reason : String) (backoff : ℕ)
      → All (λ r. can_finish job_id worker_id v r ≡ false) d.jobs
      → Refuses d (update_failed e job_id worker_id reason v backoff)
  unfolding update_failed ◌>>=◌ statement record_failure throw
  failure_no_match d m b none_match s h = ground (
    arith,
    select_none (can_finish job_id worker_id v) d.jobs none_match,
    no_match d (can_finish job_id worker_id v)
        (λ r. touch (e.clock s.sent) (fail_row m b (e.clock s.sent) r)) none_match,
  )

  pub fail_job_no_match :
      (d : Db) (reason : String) (base_delay max_delay : ℕ)
      → All (λ r. can_finish job_id worker_id v r ≡ false) d.jobs
      → Refuses d (fail_job e job_id worker_id reason v base_delay max_delay)
  unfolding fail_job read_retry_count draw statement
  fail_job_no_match d m b c none_match =
      bind-Refuses d _ _ (λ s h. ground arith)
        λ count. bind-Refuses d _ _ (λ s h. h) λ rand. failure_no_match d m _ none_match

-- Where ids and request ids are distinct, and once a job has been leased again, a report under an
-- older lease version is refused for good: after any calls it returns an error and leaves every
-- table as it was, as a success and as a failure.
pub stale_report_refused :
    (e : Env) (cs : List Call) (s : Session) (job_id worker_id reason : String)
    (v base_delay max_delay : ℕ) (x : JobRow)
    → HasKeys s.db
    → find_job job_id s.db ≡ some x
    → v < x.lease_version
    → let t = run e cs s in
      let done = complete_job e job_id worker_id v t in
      let lost = fail_job e job_id worker_id reason v base_delay max_delay t in
      (done.1.db ≡ t.db) × (is_err done.0 ≡ true) × (lost.1.db ≡ t.db) × (is_err lost.0 ≡ true)
stale_report_refused e cs s j w m v b c x keys h old =
    let (y, found, adv) = run-Advances e cs s j x keys h in
    let t = run e cs s in
    let none_match =
      only_row (can_finish j w v) j y t.db (run_any-Refines e cs s keys).1 found
        (λ r held. ground arith) (ground (arith, adv.version_grows)) in
    let done = complete_job_no_match e j w v t none_match in
    let lost = fail_job_no_match e j w v t t.db m b c none_match t refl in
    (done.0, done.1, lost.0, lost.1)
