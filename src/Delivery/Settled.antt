-- ===== src/Delivery/Settled.antt =====
-- A job from its claim to its end: what the scheduler's tables and the worker hold then.
use Prim.Native.String.{len}
use distributed_scheduler.Prelude.{
  ℕ, suc, ◌+◌, ◌≤◌, ◌<◌, ◌≡◌, refl, ap, ◌∙◌, ◌⊎◌, inl, inr, String, true, Option, none, some,
  if◌then◌else◌, str_eq, eq_iff, eq_refl, arith, In-All, In-first, first-In, first-select,
  first-update_at, Distinct-unique, Bool-cases,
}
use distributed_scheduler.Models.{Job, pending, succeeded, dead_letter}
use distributed_scheduler.Config.{Config}
use distributed_scheduler.Db.{
  Db, Env, answered, JobRow, Session, Result, ok, return, attempt, continue, ◌>>=◌, ◌>>◌, statement,
  scan_row,
}
use distributed_scheduler.Retry.{calculate_backoff}
use distributed_scheduler.JobStore.Queries.{by_id, touch, scan_job, get_job_by_id, whole_seconds}
use distributed_scheduler.JobStore.Claiming.{claim_next_job}
use distributed_scheduler.JobStore.Claim.{leased, claim_next_job_updates}
use distributed_scheduler.JobStore.Evolution.{HasKeys}
use distributed_scheduler.JobStore.History.{find_job}
use distributed_scheduler.JobStore.Results.{can_finish, complete_row, fail_row, fail_job}
use distributed_scheduler.JobStore.Reports.{complete_job_updates, fail_job_updates}
use distributed_scheduler.Auth.{worker_auth_interceptor, check_token}
use distributed_scheduler.Auth.Tokens.{bearer-append}
use distributed_scheduler.Executor.Commands.{Outcome, done, failed, panicked}
use distributed_scheduler.Executor.{ExecError}
use distributed_scheduler.Server.WorkerRpcs.{handle_report, failure_reply}
use distributed_scheduler.WorkerNode.{Node, dispatch_job, finish_job, rpc}
use distributed_scheduler.Delivery.{serve_dispatch, dispatch_to_worker, report_result, settle}

-- The job ends: SUCCEEDED; or the failure is counted and recorded, nobody holds the job, and it is
-- PENDING or DEAD_LETTER as it has tries left or not. After a panic nothing is reported.
abbrev pub IsSettled :
    (ExecError → String)
    → String
    → JobRow
    → Node
    → Db
    → Outcome ExecError
    → Result (Option Node) × Session
    → Type 0
IsSettled message job_id x w d done (r, t) =
    (r ≡ ok (some (finish_job job_id w)))
    × ((y : JobRow) × (find_job job_id t.db ≡ some y) × (y.status ≡ succeeded))
IsSettled message job_id x w d (failed c) (r, t) =
    (r ≡ ok (some (finish_job job_id w)))
    × ((y : JobRow) × (find_job job_id t.db ≡ some y)
        × (y.retry_count ≡ x.retry_count + 1)
        × (y.last_error ≡ some (message c))
        × (y.assigned_worker ≡ none)
        × (((x.retry_count + 1 < x.max_retries) × (y.status ≡ pending))
            ⊎ ((x.max_retries ≤ x.retry_count + 1) × (y.status ≡ dead_letter))))
IsSettled message job_id x w d panicked (r, t) = (r ≡ ok none) × (t.db ≡ d)

module _ (e : Env) (cfg : Config) (message : ExecError → String) (job_id : String) (v : ℕ)
    (w : Node) (s : Session) (x : JobRow) (every : (n : ℕ) → e.link n ≡ answered)
    (stored : find_job job_id s.db ≡ some x) (holds : can_finish job_id w.id v x ≡ true) where
  -- The job is read once more after a failure, which changes no table.
  failed_db :
      (c : ExecError)
      → let fails =
          fail_job e job_id w.id (message c) v cfg.retry_base_delay cfg.retry_max_delay s in
        fails.0 ≡ ok tt → (settle e cfg message answered job_id v w (failed c) s).1.db ≡ fails.1.db
  unfolding settle report_result rpc handle_report failure_reply get_job_by_id statement scan_row
      attempt continue return ◌>>=◌ ◌>>◌
  failed_db c result =
      let t = (fail_job e job_id w.id (message c) v cfg.retry_base_delay cfg.retry_max_delay s).1 in
      ground (arith, result, every t.sent)

  pub settle-IsSettled :
      (o : Outcome ExecError)
      → IsSettled message job_id x w s.db o (settle e cfg message answered job_id v w o s)
  unfolding settle report_result rpc handle_report attempt continue return ◌>>=◌ ◌>>◌
  settle-IsSettled done =
      let ends =
        complete_job_updates e s job_id w.id v x stored holds (every s.sent) (every (suc s.sent)) in
      (
        refl,
        (touch (e.clock s.sent) (complete_row (e.clock s.sent) x), ground (arith, ends.1), refl),
      )
  settle-IsSettled (failed c) =
      let now = e.clock (suc s.sent) in
      let delay = whole_seconds (
        calculate_backoff e.to_float64 e.to_int64 (e.rand (suc s.sent)) x.retry_count
          cfg.retry_base_delay cfg.retry_max_delay) in
      let (result, found, ends, others) =
        fail_job_updates e s job_id w.id v x stored holds (message c) cfg.retry_base_delay
          cfg.retry_max_delay (every s.sent) (every (suc s.sent)) (every (suc (suc s.sent))) in
      (
        refl,
        (
          touch now (fail_row (message c) delay now x),
          ap (find_job job_id) (failed_db c result) ∙ found,
          refl,
          refl,
          refl,
          elim ends [
            | inl (left, status, after) ↦ inl (left, status)
            | inr (spent, status, after) ↦ inr (spent, status)
          ],
        ),
      )
  settle-IsSettled panicked = (refl, refl)

-- The worker admits a dispatch exactly where it has the scheduler's token.
pub dispatch_to_worker_lem :
    (cfg : Config) (worker_token : String) (job : Job) (now : ℕ) (w : Node)
    → 0 < len cfg.worker_token_secret
    → dispatch_to_worker cfg answered worker_token job now w ≡ (
        if str_eq cfg.worker_token_secret worker_token
        then (dispatch_job job.id job.lease_version now w).0
        else w)
unfolding dispatch_to_worker serve_dispatch worker_auth_interceptor check_token
dispatch_to_worker_lem cfg worker_token job now w h =
    let token = bearer-append cfg.worker_token_secret h in
    elim (Bool-cases (str_eq cfg.worker_token_secret worker_token)) [
      | inl same ↦ ground (arith, token, same)
      | inr other ↦ ground (arith, token, other)
    ]

-- The node keeps its identity.
pub dispatch_job_id :
    (job_id : String) (v now : ℕ) (w : Node) → (dispatch_job job_id v now w).0.id ≡ w.id
unfolding dispatch_job
dispatch_job_id job_id v now w = ground arith

-- A claim leaves the job in flight, held by the worker under the version that is sent to it.
module _ (e : Env) (worker_id : String) (lease_duration : ℕ) (s : Session) where
  pub claim-holds :
      (job : Job)
      → ((n : ℕ) → e.link n ≡ answered)
      → HasKeys s.db
      → (claim_next_job e worker_id lease_duration s).0 ≡ ok (some job)
      → let t = (claim_next_job e worker_id lease_duration s).1 in
        (x : JobRow) × (find_job job.id t.db ≡ some x)
        × (can_finish job.id worker_id job.lease_version x ≡ true)
  unfolding scan_job
  claim-holds job every keys claimed =
      elim (claim_next_job_updates e worker_id lease_duration s (every s.sent)
        (every (suc s.sent))) [
          | inl (no_row, result, same) ↦ absurd (ground (arith, result, claimed))
          | inr (r, next, result, jobs) ↦
              let (x, found) = In-first (by_id r.id) r s.db.jobs next.stored (eq_refl r.id) in
              let same : x ≡ r =
                In-All (λ y. y.id ≡ r.id → y ≡ r) x s.db.jobs
                  (Distinct-unique (λ y. y.id) r s.db.jobs keys.ids next.stored)
                  (first-In (by_id r.id) x s.db.jobs found)
                  ((eq_iff _ _).0 (first-select (by_id r.id) s.db.jobs found)) in
              let at =
                first-update_at (by_id r.id) (by_id r.id) (leased e worker_id lease_duration s)
                  (λ y. refl) x s.db.jobs found in
              (
                leased e worker_id lease_duration s r,
                ground (arith, result, claimed, jobs, at, same, eq_refl r.id),
                ground (arith, result, claimed, eq_refl r.id, eq_refl worker_id),
              )
        ]
