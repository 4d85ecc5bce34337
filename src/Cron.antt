-- ===== src/Cron.antt =====
-- scheduler/cron.go: the evaluator that fires due schedules.
-- The parser of github.com/robfig/cron is the parameter `parse`: the text of an expression gives the
-- time of the next run after a time, or none where the text is no expression. time.Now() is an
-- argument; fmt.Sprintf("schedule:%s:%d") of a schedule's id and a time in seconds is `request_id`.
pub mod Runs
pub mod Firing
mod Examples
use distributed_scheduler.Prelude.{
  ℕ, zero, suc, ◌+◌, ◌-◌, ◌*◌, ◌/◌, String, Bool, Option, none, some, List, [], ◌∷◌, ltb, leb,
  if◌then◌else◌,
}
use distributed_scheduler.Models.{Schedule, Job, skip, run_once, run_all, unset, second}
use distributed_scheduler.Db.{Env, Result, ok, err, M, return, attempt, ◌>>=◌, ◌>>◌}
use distributed_scheduler.JobStore.Submission.{create_job}
use distributed_scheduler.ScheduleStore.{get_due_schedules, advance_schedule}

-- ValidateCronExpr: whether an expression is accepted at the time `now`.
unfoldable pub validate_cron_expr : (String → Option (ℕ → ℕ)) → String → ℕ → Bool
validate_cron_expr parse expr now = elim (parse expr) [
  | none ↦ Bool.false
  | some next ↦ leb (60 * second) (next (next now) - next now)
]

-- The loop of computeMissedRuns, for the runs that may still be added.
unfoldable pub missed_runs : Option (ℕ → ℕ) → ℕ → ℕ → ℕ → List ℕ
missed_runs next now zero run_time = []
missed_runs none now (suc more) run_time = if leb run_time now then run_time ∷ [] else []
missed_runs (some next) now (suc more) run_time =
    let rest = missed_runs (some next) now more (next run_time) in
    if leb run_time now then run_time ∷ rest else []

module _ (parse : String → Option (ℕ → ℕ)) (request_id : String → ℕ → String) where
  -- computeMissedRuns; the cap is ten runs.
  unfoldable pub compute_missed_runs : Schedule → ℕ → List ℕ
  compute_missed_runs sched now = elim sched.missed_policy [
    | skip ↦ sched.next_run_at ∷ []
    | run_once ↦ sched.next_run_at ∷ []
    | run_all ↦ missed_runs (parse sched.cron_expr) now 10 sched.next_run_at
  ]

  abbrev pub job_of : Schedule → ℕ → Job
  job_of sched run_time = record {
    id = "";
    request_id = request_id sched.id (run_time / second);
    tenant_id = sched.tenant_id;
    status = unset;
    priority = sched.priority;
    payload = sched.payload;
    max_retries = sched.max_retries;
    retry_count = 0;
    last_error = "";
    assigned_worker = "";
    lease_id = "";
    lease_expires_at = 0;
    lease_version = 0;
    created_at = 0;
    updated_at = 0;
    dispatched_at = none;
    started_at = none;
    completed_at = none;
    run_timeout = sched.run_timeout;
    retry_after = none;
  }

  -- The jobs of the runs, in their order; an error ends the firing.
  unfoldable pub create_runs : Env → Schedule → List ℕ → M (Unit {0})
  create_runs e sched [] = return tt
  create_runs e sched (t ∷ ts) = do create_job e (job_of sched t); create_runs e sched ts

  unfoldable pub advance : Env → Schedule → ℕ → Option (ℕ → ℕ) → M (Unit {0})
  advance e sched now none = return tt
  advance e sched now (some next) = advance_schedule e sched.id now (next now)

  -- fireSchedule
  unfoldable pub fire_schedule : Env → Schedule → ℕ → M (Unit {0})
  unfolding advance
  fire_schedule e sched now = do
    create_runs e sched (compute_missed_runs sched now)
    advance e sched now (parse sched.cron_expr)

  -- Each schedule is fired at its own time of the scheduler's clock; errors are logged only.
  unfoldable pub fire_each : Env → (String → ℕ) → List Schedule → M (Unit {0})
  fire_each e now [] = return tt
  fire_each e now (x ∷ xs) = do attempt (fire_schedule e x (now x.id)); fire_each e now xs

  -- evaluate
  unfoldable pub evaluate : Env → (String → ℕ) → M (Unit {0})
  evaluate e now = do schedules ← get_due_schedules e; fire_each e now schedules
