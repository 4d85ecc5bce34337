-- ===== src/ScheduleStore.antt =====
-- internal/db/schedulestore.go: the queries on the table `schedules`.
-- A row is a `Schedule`, its run timeout in whole milliseconds, as the column has it.
pub mod Quota
mod Examples
use distributed_scheduler.Prelude.{
  ℕ, ◌*◌, ◌/◌, String, Bool, true, false, not, ◌&&◌, ◌||◌, Option, none, some, List, [], ◌∷◌, ◌++◌,
  ltb, leb, ◌==◌, if◌then◌else◌, str_eq, select, first, update, matching, order_by,
}
use distributed_scheduler.Models.{Schedule, millisecond}
use distributed_scheduler.Db.{
  Db, Env, TenantQuota, Error, Result, ok, err, unique_violation, quota_reached, not_found, M,
  return, guard, ◌>>=◌, ◌>>◌, statement, scan_row,
}
use distributed_scheduler.JobStore.Queries.{is_some}

abbrev pub of_tenant : String → Schedule → Bool
of_tenant tenant_id x = str_eq x.tenant_id tenant_id

-- UNIQUE(tenant_id, name)
abbrev pub named : String → String → Schedule → Bool
named tenant_id name x = of_tenant tenant_id x && str_eq x.name name

abbrev pub owned : String → String → Schedule → Bool
owned schedule_id tenant_id x = str_eq x.id schedule_id && of_tenant tenant_id x

abbrev pub quota_of : Option TenantQuota → ℕ
quota_of none = 50
quota_of (some q) = q.max_schedules

-- COALESCE((SELECT max_schedules …), 50)
abbrev pub schedule_quota : String → Db → ℕ
schedule_quota tenant_id d = quota_of (first (λ q. str_eq q.tenant_id tenant_id) d.quotas)

unfoldable pub count_schedules : Env → String → M ℕ
unfolding statement
count_schedules e tenant_id =
    statement e λ n d. (ok (matching (of_tenant tenant_id) d.schedules), d)

unfoldable pub read_quota : Env → String → M ℕ
unfolding statement
read_quota e tenant_id = statement e λ n d. (ok (schedule_quota tenant_id d), d)

abbrev pub new_schedule : Env → ℕ → Schedule → Schedule
new_schedule e n x = record x {
  id = e.uuid n;
  run_timeout = x.run_timeout / millisecond * millisecond;
  last_run_at = none;
  created_at = e.clock n;
  updated_at = e.clock n;
}

-- The constraints, and then the row. RETURNING id, created_at, updated_at.
unfoldable pub insert_schedule : Env → Schedule → M Schedule
unfolding statement
insert_schedule e x = statement e λ n d.
    if is_some (first (named x.tenant_id x.name) d.schedules)
      || is_some (first (λ y. str_eq y.id (e.uuid n)) d.schedules)
    then (err unique_violation, d)
    else (
      ok (record x { id = e.uuid n; created_at = e.clock n; updated_at = e.clock n }),
      record d { schedules = d.schedules ++ new_schedule e n x ∷ [] },
    )

-- What other sessions do with the table between two statements.
unfoldable pub others_write : (List Schedule → List Schedule) → M (Unit {0})
others_write meanwhile s =
    (ok tt, record s { db = record s.db { schedules = meanwhile s.db.schedules } })

-- CreateSchedule: three statements, with no transaction about them. The second reads no schedule, so
-- that what others do on either side of it is written once, before the insert.
unfoldable pub create_schedule : Env → (List Schedule → List Schedule) → Schedule → M Schedule
create_schedule e meanwhile x = do
  count ← count_schedules e x.tenant_id
  max ← read_quota e x.tenant_id
  others_write meanwhile
  guard (not (leb max count)) quota_reached
  insert_schedule e x

abbrev pub is_due : ℕ → Schedule → Bool
is_due now x = x.enabled && leb x.next_run_at now

-- SKIP LOCKED passes over the rows that other sessions hold. ORDER BY next_run_at ASC.
unfoldable pub get_due_schedules : Env → M (List Schedule)
unfolding statement
get_due_schedules e = statement e λ n d. (
  ok (
      order_by (λ y x. ltb y.next_run_at x.next_run_at)
        (select (λ x. is_due (e.clock n) x && not (e.locked n x.id)) d.schedules)),
  d,
)

-- UPDATE schedules SET set WHERE test: the rows affected.
abbrev pub update_schedules : Env → (Schedule → Bool) → (Schedule → Schedule) → M ℕ
update_schedules e test set =
    statement e
      λ n d. (ok (matching test d.schedules), record d { schedules = update test set d.schedules })

unfoldable pub advance_schedule : Env → String → ℕ → ℕ → M (Unit {0})
advance_schedule e schedule_id last_run next_run = do
  affected ←
      update_schedules e (λ x. str_eq x.id schedule_id)
        (λ x. record x { last_run_at = some last_run; next_run_at = next_run })
  return tt

-- ORDER BY created_at DESC
unfoldable pub list_schedules : Env → String → M (List Schedule)
unfolding statement
list_schedules e tenant_id = statement e λ n d. (
  ok (order_by (λ y x. ltb x.created_at y.created_at) (select (of_tenant tenant_id) d.schedules)),
  d,
)

unfoldable pub toggle_schedule : Env → String → String → Bool → M (Unit {0})
toggle_schedule e schedule_id tenant_id enabled = do
  affected ← update_schedules e (owned schedule_id tenant_id) (λ x. record x { enabled = enabled })
  guard (not (affected == 0)) not_found

unfoldable pub delete_rows : Env → (Schedule → Bool) → M ℕ
unfolding statement
delete_rows e test = statement e λ n d. (
  ok (matching test d.schedules),
  record d { schedules = select (λ x. not (test x)) d.schedules },
)

unfoldable pub delete_schedule : Env → String → String → M (Unit {0})
delete_schedule e schedule_id tenant_id = do
  affected ← delete_rows e (owned schedule_id tenant_id)
  guard (not (affected == 0)) not_found

abbrev pub no_such_schedule : Result Schedule → Result Schedule
no_such_schedule (err Error.no_rows) = err not_found
no_such_schedule r = r

unfoldable pub get_schedule_by_name : Env → String → String → M Schedule
unfolding statement scan_row
get_schedule_by_name e tenant_id name =
    statement e λ n d. (no_such_schedule (scan_row (first (named tenant_id name) d.schedules)), d)
