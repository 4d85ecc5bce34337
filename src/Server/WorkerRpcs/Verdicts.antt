-- ===== src/Server/WorkerRpcs/Verdicts.antt =====
-- ReportResult of scheduler/scheduler.go, for the worker that holds the lease and for one that does not.
use distributed_scheduler.Prelude.{
  ℕ, suc, ◌≡◌, refl, true, false, none, some, arith, if◌then◌else◌, not, ◌&&◌, Bool-cases, inl, inr,
  All,
}
use distributed_scheduler.Models.{is_dead_letter}
use distributed_scheduler.Config.{Config}
use distributed_scheduler.Db.{
  Env, Error, JobRow, Session, answered, Result, ok, err, is_err, return, attempt, continue, ◌>>=◌,
  statement, scan_row,
}
use distributed_scheduler.JobStore.Queries.{scan_job, get_job_by_id}
use distributed_scheduler.JobStore.Results.{can_finish, exhausted, fail_job}
use distributed_scheduler.JobStore.History.{find_job}
use distributed_scheduler.JobStore.Lease.{complete_job_no_match, fail_job_no_match}
use distributed_scheduler.JobStore.Reports.{complete_job_updates, fail_job_updates}
use distributed_scheduler.Server.WorkerRpcs.{
  JobResultRequest, accepted_with, rejected, failure_reply, report_failure, handle_report,
}

module _ (e : Env) (cfg : Config) (req : JobResultRequest) (s : Session) (x : JobRow)
    (every : (n : ℕ) → e.link n ≡ answered) (stored : find_job req.job_id s.db ≡ some x)
    (holds : can_finish req.job_id req.worker_id req.lease_version x ≡ true) where
  accepts_success : req.success ≡ true → (handle_report e cfg req s).0 ≡ ok (accepted_with none)
  unfolding handle_report attempt continue return ◌>>=◌
  accepts_success good =
      let done =
        complete_job_updates e s req.job_id req.worker_id req.lease_version x stored holds
          (every s.sent) (every (suc s.sent)) in
      ground (arith, good, done.0)

  reread :
      (t : Session) (y : JobRow)
      → find_job req.job_id t.db ≡ some y
      → (failure_reply e req.job_id (ok tt) t).0
        ≡ ok (accepted_with (if is_dead_letter y.status then some req.job_id else none))
  unfolding failure_reply get_job_by_id scan_row scan_job attempt continue return statement ◌>>=◌
  reread t y found = ground (arith, every t.sent, found)

  accepts_failure :
      req.success ≡ false
      → (handle_report e cfg req s).0
        ≡ ok (accepted_with (if exhausted x then some req.job_id else none))
  unfolding handle_report attempt continue return ◌>>=◌ report_failure
  accepts_failure failed =
      let done =
        fail_job_updates e s req.job_id req.worker_id req.lease_version x stored holds
          req.error_message cfg.retry_base_delay cfg.retry_max_delay (every s.sent)
          (every (suc s.sent)) (every (suc (suc s.sent))) in
      let t =
        (fail_job e req.job_id req.worker_id req.error_message req.lease_version
          cfg.retry_base_delay cfg.retry_max_delay s).1 in
      let again = reread t _ done.1 in ground (arith, failed, done.0, again)

  -- On a server that answers, ReportResult accepts the report of the worker that holds the lease, and
  -- starts an autopsy of the job exactly when the report is of a failure that uses up the job's tries.
  pub handle_report_accepts :
      (handle_report e cfg req s).0
      ≡ ok (accepted_with (if not req.success && exhausted x then some req.job_id else none))
  handle_report_accepts = elim (Bool-cases req.success) [
    | inl good ↦ let h = accepts_success good in ground (arith, good, h)
    | inr failed ↦ let h = accepts_failure failed in ground (arith, failed, h)
  ]

is_err-cases : {A : Type 0} (r : Result A) → is_err r ≡ true → (x : Error) × (r ≡ err x)
is_err-cases (ok a) h = cc
is_err-cases (err x) h = (x, refl)

-- ReportResult rejects a report that no row's lease allows, as of a worker that never had the job or
-- whose lease is an old one: it changes nothing and starts no autopsy, whatever the server does.
pub handle_report_rejects :
    (e : Env) (cfg : Config) (req : JobResultRequest) (s : Session)
    → All (λ r. can_finish req.job_id req.worker_id req.lease_version r ≡ false) s.db.jobs
    → (x : Error) × ((handle_report e cfg req s).0 ≡ ok (rejected x))
      × ((handle_report e cfg req s).1.db ≡ s.db)
unfolding handle_report report_failure failure_reply attempt continue return ◌>>=◌
handle_report_rejects e cfg req s none_match = elim (Bool-cases req.success) [
  | inl good ↦
      let (same, fails) =
        complete_job_no_match e req.job_id req.worker_id req.lease_version s none_match in
      let (x, h) = is_err-cases _ fails in
      (x, ground (arith, good, h), ground (arith, good, h, same))
  | inr failed ↦
      let (same, fails) =
        fail_job_no_match e req.job_id req.worker_id req.lease_version s s.db req.error_message
          cfg.retry_base_delay cfg.retry_max_delay none_match s refl in
      let (x, h) = is_err-cases _ fails in
      (x, ground (arith, failed, h), ground (arith, failed, h, same))
]
