-- ===== src/JobStore/Renewal.antt =====
-- The query of RenewLease in scheduler/scheduler.go, the one UPDATE on `jobs` that stands outside
-- internal/db/jobstore.go.
use distributed_scheduler.Prelude.{ℕ, ◌+◌, String, Bool, ◌&&◌, some, List}
use distributed_scheduler.Models.{is_running}
use distributed_scheduler.Db.{Env, JobRow, M}
use distributed_scheduler.JobStore.Queries.{update_returning, whole_seconds}
use distributed_scheduler.JobStore.Results.{holds_lease}

abbrev pub can_renew : String → String → ℕ → JobRow → Bool
can_renew job_id worker_id lease_version r =
    holds_lease job_id worker_id lease_version r && is_running r.status

abbrev pub renew_row : ℕ → JobRow → JobRow
renew_row expiry r = record r { lease_expires_at = some expiry }

unfoldable pub renew_query : Env → String → String → ℕ → ℕ → M (List JobRow)
renew_query e job_id worker_id lease_version lease_duration =
    update_returning e (λ now. can_renew job_id worker_id lease_version)
      (λ now. renew_row (now + whole_seconds lease_duration))
