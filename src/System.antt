-- ===== src/System.antt =====
-- scheduler/scheduler.go as a whole: the requests that its server serves and the ticks of its
-- background loops, in any order. startHeartbeatMonitor, startReconciler, startDispatcher,
-- startMetricsUpdater and the run of cron.go wait for their ticker and make one call at each tick.
pub mod Serving
pub mod Loops
pub mod Asides
pub mod Sound
mod Examples
use distributed_scheduler.Prelude.{ℕ, String, Bool, Option, List, [], ◌∷◌}
use distributed_scheduler.Prelude.Int.{ℤ}
use distributed_scheduler.Models.{Worker, Schedule}
use distributed_scheduler.Config.{Config}
use distributed_scheduler.Db.{Env, Session}
use distributed_scheduler.JobStore.Calls.{Call}
use distributed_scheduler.Autopsy.{Library}
use distributed_scheduler.Cron.{evaluate}
use distributed_scheduler.Server.WorkerRpcs.{
  handle_register, handle_heartbeat, JobResultRequest, handle_report, handle_renew,
}
use distributed_scheduler.Server.JobRpcs.{
  SubmitJobRequest, handle_submit, GetJobRequest, handle_get, handle_cancel, handle_list,
}
use distributed_scheduler.Server.ScheduleRpcs.{
  CreateScheduleRequest, handle_create_schedule, handle_list_schedules, handle_toggle_schedule,
  handle_delete_schedule,
}
use distributed_scheduler.Server.AutopsyRpcs.{
  generate_autopsy, handle_get_autopsy, handle_list_autopsies,
}
use distributed_scheduler.Server.Dispatch.{reap_dead_workers, reconcile, dispatch_pending_jobs}
use distributed_scheduler.Server.Metrics.{Gauges, update_gauge_metrics}

-- A request, the autopsy of a job, or a tick. `now` is the clock of the process, `fuel` that of a
-- round of the dispatcher, and `meanwhile` what other sessions do between the statements of the call.
pub data Event : Type 0 where
  registers : Worker → Event
  beats : (worker_id : String) (active_jobs : ℕ) (status : String) → Event
  reports : JobResultRequest → Event
  renews : (job_id worker_id : String) (lease_version : ℕ) → Event
  submits : (meanwhile : List Call) → SubmitJobRequest → Event
  gets : GetJobRequest → Event
  cancels : (job_id tenant_id : String) → Event
  lists : (tenant_id status_filter : String) (limit offset : ℕ) → Event
  creates_schedule :
      CreateScheduleRequest → (meanwhile : List Schedule → List Schedule) → (now : ℕ) → Event
  lists_schedules : (tenant_id : String) → Event
  toggles_schedule : (schedule_id tenant_id : String) (enabled : Bool) → Event
  deletes_schedule : (schedule_id tenant_id : String) → Event
  gets_autopsy : (job_id tenant_id : String) → Event
  lists_autopsies : (tenant_id : String) (limit : ℤ) → Event
  makes_autopsy : (now : ℕ) (job_id : String) → Event
  monitors reconciles : Event
  dispatches : (fuel : ℕ) → Event
  evaluates : (now : String → ℕ) → Event
  measures : Gauges → Event

module _ (parse : String → Option (ℕ → ℕ)) (request_id : String → ℕ → String) (l : Library)
    (cfg : Config) (e : Env) where
  -- The session after an event, whatever its call returned.
  unfoldable pub serve : Event → Session → Session
  serve (registers worker) s = (handle_register e worker s).1
  serve (beats w n status) s = (handle_heartbeat e w n status s).1
  serve (reports req) s = (handle_report e cfg req s).1
  serve (renews j w v) s = (handle_renew e cfg j w v s).1
  serve (submits meanwhile req) s = (handle_submit e cfg meanwhile req s).1
  serve (gets req) s = (handle_get e req s).1
  serve (cancels j t) s = (handle_cancel e j t s).1
  serve (lists t st limit offset) s = (handle_list e t st limit offset s).1
  serve (creates_schedule req meanwhile now) s =
      (handle_create_schedule parse e cfg now meanwhile req s).1
  serve (lists_schedules t) s = (handle_list_schedules e t s).1
  serve (toggles_schedule i t b) s = (handle_toggle_schedule e i t b s).1
  serve (deletes_schedule i t) s = (handle_delete_schedule e i t s).1
  serve (gets_autopsy j t) s = (handle_get_autopsy e j t s).1
  serve (lists_autopsies t limit) s = (handle_list_autopsies e l t limit s).1
  serve (makes_autopsy now j) s = (generate_autopsy e l now j s).1
  serve monitors s = (reap_dead_workers e cfg s).1
  serve reconciles s = (reconcile e s).1
  serve (dispatches fuel) s = (dispatch_pending_jobs e cfg fuel s).1
  serve (evaluates now) s = (evaluate parse request_id e now s).1
  serve (measures g) s = (update_gauge_metrics e g s).1

  unfoldable pub serve_all : List Event → Session → Session
  serve_all [] s = s
  serve_all (ev ∷ evs) s = serve_all evs (serve ev s)
