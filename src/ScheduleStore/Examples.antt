-- ===== src/ScheduleStore/Examples.antt =====
-- Runs of internal/db/schedulestore.go on a table with one schedule, and its theorems at them.
use distributed_scheduler.Prelude.{◌+◌, ◌-◌, ◌≤◌, ◌≡◌, refl, List, [], ◌∷◌, arith, first, matching}
use distributed_scheduler.Models.{Schedule}
use distributed_scheduler.Db.{Session, statement, guard, continue, ◌>>=◌, ◌>>◌}
use distributed_scheduler.Samples.{server, nightly, one_schedule}
use distributed_scheduler.ScheduleStore.{
  schedule_quota, count_schedules, read_quota, others_write, insert_schedule, create_schedule,
}
use distributed_scheduler.ScheduleStore.Quota.{schedules_of, create_schedule-quota}

-- A quota of two, with one schedule; another session creates one more in the meantime.
abbrev two_at_most : Session
two_at_most = record one_schedule {
  db = record one_schedule.db { quotas = record { tenant_id = "acme"; max_schedules = 2 } ∷ [] };
}

abbrev weekly : List Schedule → List Schedule
weekly xs = record nightly { id = "schedule-2"; name = "weekly" } ∷ xs

create_schedule-quota_example :
    let t = (create_schedule server weekly (record nightly { name = "hourly" }) two_at_most).1 in
    (schedules_of "acme" t.db ≤ schedule_quota "acme" t.db + (2 - 1))
    × (t.db.quotas ≡ two_at_most.db.quotas)
unfolding matching first
create_schedule-quota_example =
    create_schedule-quota server weekly (record nightly { name = "hourly" }) two_at_most "acme"
      (omega arith)

-- The tenant then has three schedules, though its quota is two.
raced_schedule :
    let t = (create_schedule server weekly (record nightly { name = "hourly" }) two_at_most).1 in
    schedules_of "acme" t.db ≡ 3
unfolding create_schedule count_schedules read_quota others_write insert_schedule statement guard
    continue matching first ◌>>=◌ ◌>>◌
raced_schedule = refl
