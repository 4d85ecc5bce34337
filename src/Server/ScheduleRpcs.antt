-- ===== src/Server/ScheduleRpcs.antt =====
-- The schedule handlers of scheduler/scheduler.go. The parser of cron expressions is the parameter
-- `parse`, as in Cron; time.Now() is an argument.
pub mod Runnable
use Prim.Native.String.{len}
use distributed_scheduler.Prelude.{
  ℕ, ◌*◌, String, Bool, true, false, not, ◌||◌, Option, none, some, List, map, ltb, ◌==◌,
  if◌then◌else◌, str_eq,
}
use distributed_scheduler.Models.{MissedRunPolicy, skip, run_once, run_all, Schedule, millisecond}
use distributed_scheduler.Config.{Config}
use distributed_scheduler.Db.{Env, Result, ok, err, M, return, attempt, ◌>>=◌, ◌>>◌}
use distributed_scheduler.Cron.{validate_cron_expr}
use distributed_scheduler.ScheduleStore.{
  create_schedule, list_schedules, toggle_schedule, delete_schedule,
}
use distributed_scheduler.Server.Rpc.{Rpc, reply, status, invalid_argument, internal}

pub record CreateScheduleRequest : Type 0 where
  pub tenant_id : String
  pub name : String
  pub cron_expr : String
  pub payload : String
  pub priority : String
  pub max_retries : ℕ
  pub run_timeout_ms : ℕ
  pub missed_policy : String

-- The empty text means SKIP; none where the text is no policy.
unfoldable pub policy_of : String → Option MissedRunPolicy
policy_of text =
    if str_eq text "" || str_eq text "SKIP"
    then some skip
    else if str_eq text "RUN_ONCE"
    then some run_once
    else if str_eq text "RUN_ALL"
    then some run_all
    else none

abbrev pub or_default : ℕ → ℕ → ℕ
or_default n value = if value == 0 then n else value

module _ (parse : String → Option (ℕ → ℕ)) (e : Env) (cfg : Config) (now : ℕ) where
  abbrev pub schedule_of : CreateScheduleRequest → MissedRunPolicy → ℕ → Schedule
  schedule_of req policy next_run = record {
    id = "";
    tenant_id = req.tenant_id;
    name = req.name;
    cron_expr = req.cron_expr;
    payload = req.payload;
    priority = if str_eq req.priority "" then "MEDIUM" else req.priority;
    max_retries = or_default 3 req.max_retries;
    run_timeout = or_default cfg.run_timeout (req.run_timeout_ms * millisecond);
    enabled = true;
    missed_policy = policy;
    last_run_at = none;
    next_run_at = next_run;
    created_at = 0;
    updated_at = 0;
  }

  abbrev pub created_schedule : Result Schedule → Rpc Schedule
  created_schedule (ok x) = reply x
  created_schedule (err x) = status internal

  -- The next run, and then the insert.
  unfoldable pub schedule_run :
      (List Schedule → List Schedule)
      → CreateScheduleRequest
      → MissedRunPolicy
      → Option (ℕ → ℕ)
      → M (Rpc Schedule)
  schedule_run meanwhile req policy none = return (status invalid_argument)
  schedule_run meanwhile req policy (some next) = do
    created ← attempt (create_schedule e meanwhile (schedule_of req policy (next now)))
    return (created_schedule created)

  unfoldable pub with_policy :
      (List Schedule → List Schedule)
      → CreateScheduleRequest
      → Option MissedRunPolicy
      → M (Rpc Schedule)
  with_policy meanwhile req none = return (status invalid_argument)
  with_policy meanwhile req (some policy) = schedule_run meanwhile req policy (parse req.cron_expr)

  -- The inputs that CreateSchedule refuses before it looks at the policy.
  abbrev pub is_invalid : CreateScheduleRequest → Bool
  is_invalid req =
      str_eq req.tenant_id ""
      || (str_eq req.name ""
          || (str_eq req.payload ""
              || (not (validate_cron_expr parse req.cron_expr now)
                  || ltb cfg.max_payload_bytes (len req.payload))))

  -- CreateSchedule; `meanwhile` is what other sessions do between the statements of the insert.
  unfoldable pub handle_create_schedule :
      (List Schedule → List Schedule) → CreateScheduleRequest → M (Rpc Schedule)
  unfolding schedule_run with_policy return
  handle_create_schedule meanwhile req =
      if is_invalid req
      then return (status invalid_argument)
      else with_policy meanwhile req (policy_of req.missed_policy)

abbrev pub listed_schedules : Result (List Schedule) → Rpc (List Schedule)
listed_schedules (ok xs) = reply xs
listed_schedules (err x) = status internal

-- ListSchedules
unfoldable pub handle_list_schedules : Env → String → M (Rpc (List Schedule))
unfolding ◌>>=◌ attempt return
handle_list_schedules e tenant_id =
    if str_eq tenant_id ""
    then return (status invalid_argument)
    else do xs ← attempt (list_schedules e tenant_id); return (listed_schedules xs)

abbrev pub done : String → Result (Unit {0}) → Rpc String
done message (ok _) = reply message
done message (err x) = status internal

-- ToggleSchedule
unfoldable pub handle_toggle_schedule : Env → String → String → Bool → M (Rpc String)
unfolding ◌>>=◌ attempt return
handle_toggle_schedule e schedule_id tenant_id enabled =
    if str_eq schedule_id "" || str_eq tenant_id "" then return (status invalid_argument) else do
      r ← attempt (toggle_schedule e schedule_id tenant_id enabled)
      return (done (if enabled then "schedule resumed" else "schedule paused") r)

-- DeleteSchedule
unfoldable pub handle_delete_schedule : Env → String → String → M (Rpc String)
unfolding ◌>>=◌ attempt return
handle_delete_schedule e schedule_id tenant_id =
    if str_eq schedule_id "" || str_eq tenant_id "" then return (status invalid_argument) else do
      r ← attempt (delete_schedule e schedule_id tenant_id)
      return (done "schedule deleted" r)
