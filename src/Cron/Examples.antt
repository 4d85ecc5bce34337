-- ===== src/Cron/Examples.antt =====
-- A schedule of scheduler/cron.go that was missed a few times, with an expression of every minute.
use distributed_scheduler.Prelude.{
  ℕ, ◌+◌, ◌*◌, ◌≤◌, ◌<◌, ◌≡◌, refl, String, false, Option, some, All, length, arith, first,
}
use distributed_scheduler.Models.{Schedule, run_all, second}
use distributed_scheduler.Db.{statement, return, ◌>>=◌, ◌>>◌, continue}
use distributed_scheduler.Samples.{server, nightly, one_schedule}
use distributed_scheduler.ScheduleStore.{is_due, advance_schedule}
use distributed_scheduler.JobStore.Queries.{record_transition}
use distributed_scheduler.JobStore.Submission.{create_job, insert_job, insert_outcome, created_job}
use distributed_scheduler.Cron.{compute_missed_runs, create_runs, fire_schedule, missed_runs}
use distributed_scheduler.Cron.Runs.{Increasing, Follow, IsCaughtUp, compute_missed_runs_lem}
use distributed_scheduler.Cron.Firing.{find_schedule, fire_schedule_lem}

abbrev every_minute : ℕ → ℕ
every_minute t = t + 60 * second

abbrev parse : String → Option (ℕ → ℕ)
parse expr = some every_minute

abbrev request_id : String → ℕ → String
request_id schedule_id seconds = "schedule:schedule-1:900"

onwards : (t : ℕ) → t < every_minute t
onwards t = omega arith

compute_missed_runs_lem_example :
    let runs = compute_missed_runs parse request_id nightly (1050 * second) in
    (0 < length runs)
    × (length runs ≤ 10)
    × All (λ t. t ≤ 1050 * second) runs
    × Increasing runs
    × Follow every_minute (900 * second) runs
    × IsCaughtUp parse request_id nightly every_minute (1050 * second) run_all runs
compute_missed_runs_lem_example =
    compute_missed_runs_lem parse request_id nightly every_minute (1050 * second) refl onwards
      (omega arith)

fire_schedule_lem_example :
    let t = (fire_schedule parse request_id server nightly (900 * second) one_schedule).1 in
    (y : Schedule) × (find_schedule "schedule-1" t.db ≡ some y)
    × (y ≡ record nightly {
      last_run_at = some (900 * second);
      next_run_at = every_minute (900 * second);
    })
    × (is_due (900 * second) y ≡ false)
unfolding first fire_schedule create_runs compute_missed_runs create_job insert_job insert_outcome
    created_job record_transition advance_schedule statement return ◌>>=◌ ◌>>◌ continue missed_runs
fire_schedule_lem_example =
    fire_schedule_lem parse request_id server nightly one_schedule (900 * second) every_minute
      nightly refl onwards refl refl
