-- ===== src/JobStore/Claiming.antt =====
-- ClaimNextJob of internal/db/jobstore.go: the choice of the next job, and its lease.
use distributed_scheduler.Prelude.{
  ℕ, ◌+◌, String, Bool, true, not, ◌&&◌, ◌||◌, Option, none, some, ltb, leb, ◌==◌, if◌then◌else◌,
  str_eq, select, update, best,
}
use distributed_scheduler.Models.{pending, dispatched, is_pending, JobPriority, Job}
use distributed_scheduler.Db.{Db, Env, JobRow, Result, ok, M, return, ◌>>=◌, ◌>>◌, statement}
use distributed_scheduler.JobStore.Queries.{
  by_id, touch, whole_seconds, scan_job, record_transition,
}

-- CASE priority …: NULL, for any other text, comes last in ascending order.
unfoldable pub priority_rank : JobPriority → ℕ
priority_rank p =
    if str_eq p "HIGH" then 1 else if str_eq p "MEDIUM" then 2 else if str_eq p "LOW" then 3 else 4

-- retry_after IS NULL OR retry_after <= NOW()
abbrev pub retry_due : ℕ → Option ℕ → Bool
retry_due now none = true
retry_due now (some t) = leb t now

-- SKIP LOCKED passes over the rows that other sessions hold.
unfoldable pub eligible : Env → ℕ → JobRow → Bool
eligible e n r =
    is_pending r.status && (retry_due (e.clock n) r.retry_after && not (e.locked n r.id))

-- ORDER BY CASE priority …, created_at ASC
unfoldable pub claims_before : JobRow → JobRow → Bool
claims_before y x =
    ltb (priority_rank y.priority) (priority_rank x.priority)
    || (priority_rank y.priority == priority_rank x.priority && ltb y.created_at x.created_at)

abbrev pub claim_row : Env → ℕ → String → ℕ → JobRow → JobRow
claim_row e n worker_id lease_duration r = record r {
  status = dispatched;
  assigned_worker = some worker_id;
  lease_id = some (e.uuid n);
  lease_expires_at = some (e.clock n + whole_seconds lease_duration);
  lease_version = r.lease_version + 1;
  dispatched_at = some (e.clock n);
}

-- The row that the subquery locks, and then its update.
unfoldable pub next_job : Env → ℕ → Db → Option JobRow
next_job e n d = best claims_before (select (eligible e n) d.jobs)

unfoldable pub claim_chosen :
    Env → ℕ → String → ℕ → Db → Option JobRow → Result (Option JobRow) × Db
claim_chosen e n worker_id lease_duration d none = (ok none, d)
claim_chosen e n worker_id lease_duration d (some r) = (
  ok (some (touch (e.clock n) (claim_row e n worker_id lease_duration r))),
  record d {
    jobs =
        update (by_id r.id) (λ x. touch (e.clock n) (claim_row e n worker_id lease_duration x))
          d.jobs;
  },
)

unfoldable pub claim_statement : Env → String → ℕ → M (Option JobRow)
unfolding claim_chosen
claim_statement e worker_id lease_duration =
    statement e λ n d. claim_chosen e n worker_id lease_duration d (next_job e n d)

unfoldable pub claimed_job : Env → String → Option JobRow → M (Option Job)
claimed_job e worker_id none = return none
claimed_job e worker_id (some r) = do
  record_transition e r.id pending dispatched worker_id "claimed by worker"
  return (some (scan_job r))

unfoldable pub claim_next_job : Env → String → ℕ → M (Option Job)
unfolding claimed_job
claim_next_job e worker_id lease_duration = do
  r ← claim_statement e worker_id lease_duration
  claimed_job e worker_id r
